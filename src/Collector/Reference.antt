-- ===== src/Collector/Reference.antt =====
use mathlib.Core.Path.{ap₂}
-- When the listener (MyoNucMotor/MyoNucMotor/DataCollector.cpp) takes its reference anew, and what
-- a sequence of events does to the reference and to the speed.
use myodesignproject.Base.{◌≡◌, ◌≢◌, refl, ◌∙◌, ap, Bool, true, false, List, [], ◌∷◌, if◌then◌else◌}
use myodesignproject.Collector.Sdk.{Sdk}
use myodesignproject.Collector.{
  Zone, up, down, mid, Collector, initial, roll, yaw, take_reference, enter_mid, update_zone,
  update_pos, measure, update_speed, located, on_orientation_data, on_pose, Event, orientation,
  posed, deliver,
}
use myodesignproject.Collector.WinCopy.{
  win_located, win_update_zone, win_update_pos, win_enter_mid, win_take_reference, win_roll,
  win_yaw, win_measure, win_update_speed, win_on_orientation_data,
}
use myodesignproject.Collector.Zones.{
  zone_of, located-zone, located-speed, on_orientation_data-zone, SpeedOf,
  on_orientation_data-SpeedOf,
}

module _ (sdk : Sdk) where
  open sdk use {Quaternion, Vector, num, lt, sub, of_int, to_int, from_axis_angle, vector, vz}

  -- The reference is taken anew on the way from `down` to `mid`, and kept else.
  abbrev pub ReferenceOf : Zone → Zone → Quaternion → Collector sdk → Collector sdk → Type 0
  ReferenceOf down mid q c d =
      (d.reference_quat ≡ from_axis_angle (vector (num 0) (num 0) (num 1)) (yaw sdk q))
      × (d.reference_roll ≡ roll sdk q)
  ReferenceOf _ _ q c d =
      (d.reference_quat ≡ c.reference_quat) × (d.reference_roll ≡ c.reference_roll)

  by_tests :
      (z : Zone) (above below : Bool) (q : Quaternion) (c : Collector sdk)
      → ReferenceOf z (if above then up else if below then down else mid) q c (
          if above
          then record c { quat = q; zone = up }
          else if below
          then record c { quat = q; zone = down }
          else enter_mid sdk z q (record c { quat = q }))
  unfolding enter_mid take_reference
  by_tests down true below q c = (refl, refl)
  by_tests down false true q c = (refl, refl)
  by_tests down false false q c = (refl, refl)
  by_tests up true below q c = (refl, refl)
  by_tests up false true q c = (refl, refl)
  by_tests up false false q c = (refl, refl)
  by_tests mid true below q c = (refl, refl)
  by_tests mid false true q c = (refl, refl)
  by_tests mid false false q c = (refl, refl)

  ReferenceOf-same :
      (y z : Zone) (q : Quaternion) (c d e : Collector sdk)
      → e.reference_quat ≡ d.reference_quat
      → e.reference_roll ≡ d.reference_roll
      → ReferenceOf y z q c d
      → ReferenceOf y z q c e
  ReferenceOf-same down mid q c d e p r h = (p ∙ h.0, r ∙ h.1)
  ReferenceOf-same _ _ q c d e p r h = (p ∙ h.0, r ∙ h.1)

  update_speed-reference :
      (z : Zone) (q : Quaternion) (c : Collector sdk)
      → ((update_speed sdk z q c).reference_quat ≡ c.reference_quat)
        × ((update_speed sdk z q c).reference_roll ≡ c.reference_roll)
  unfolding update_speed measure
  update_speed-reference up q c = (refl, refl)
  update_speed-reference down q c = (refl, refl)
  update_speed-reference mid q c = (refl, refl)

  located-ReferenceOf :
      (q : Quaternion) (c : Collector sdk)
      → ReferenceOf c.zone (zone_of sdk c.pos) q c (located sdk q c)
  unfolding located update_zone update_pos
  located-ReferenceOf q c =
      ReferenceOf-same c.zone (zone_of sdk c.pos) q c (update_zone sdk q (record c { quat = q }))
        (located sdk q c) refl refl
        (by_tests c.zone (lt sdk.half (vz c.pos)) (lt (vz c.pos) sdk.minus_half) q c)

  -- An orientation takes the reference anew from it, the rotation about the z axis by its yaw and
  -- its roll, just where it moves the zone from Down to Mid, and keeps the reference else.
  pub on_orientation_data-ReferenceOf :
      (q : Quaternion) (c : Collector sdk)
      → ReferenceOf c.zone (zone_of sdk c.pos) q c (on_orientation_data sdk q c)
  unfolding on_orientation_data
  on_orientation_data-ReferenceOf q c =
      let d = located sdk q c in
      let (p, r) = update_speed-reference d.zone q d in
      ReferenceOf-same c.zone (zone_of sdk c.pos) q c d (on_orientation_data sdk q c) p r
        (located-ReferenceOf q c)

  -- The motor stands while the arm is down.
  abbrev pub Rests : Collector sdk → Type 0
  Rests c = c.zone ≡ down → c.speed ≡ num 0

  SpeedOf-Rests :
      (z : Zone) (q : Quaternion) (c d : Collector sdk) → d.zone ≡ z → SpeedOf sdk z q c d → Rests d
  SpeedOf-Rests down q c d e h = λ _. h
  SpeedOf-Rests up q c d e h = λ p. cc
  SpeedOf-Rests mid q c d e h = λ p. cc

  on_orientation_data-Rests :
      (q : Quaternion) (c : Collector sdk) → Rests (on_orientation_data sdk q c)
  on_orientation_data-Rests q c =
      SpeedOf-Rests (zone_of sdk c.pos) q c (on_orientation_data sdk q c)
        (on_orientation_data-zone sdk q c) (on_orientation_data-SpeedOf sdk q c)

  -- A listener that rests while the arm is down still does so after any events.
  pub deliver-Rests :
      (c : Collector sdk) (es : List (Event sdk))
      → Rests c
      → Rests (deliver sdk (on_orientation_data sdk) c es)
  unfolding deliver on_pose
  deliver-Rests c [] h = h
  deliver-Rests c (orientation q ∷ es) h =
      deliver-Rests (on_orientation_data sdk q c) es (on_orientation_data-Rests q c)
  deliver-Rests c (posed p ∷ es) h = deliver-Rests (on_pose sdk p c).0 es h

  initial-Rests : Rests (initial sdk)
  unfolding initial
  initial-Rests = λ _. refl

  -- After any events from the start on, if the zone is Down then the speed is 0 (the copy in
  -- MyoNucMotor).
  pub deliver-initial_rests :
      (es : List (Event sdk))
      → (deliver sdk (on_orientation_data sdk) (initial sdk) es).zone ≡ down
      → (deliver sdk (on_orientation_data sdk) (initial sdk) es).speed ≡ num 0
  deliver-initial_rests es = deliver-Rests (initial sdk) es initial-Rests

  -- The arm is not down before any of the events.
  abbrev pub Aloft : Collector sdk → List (Event sdk) → Type 0
  Aloft c [] = Unit
  Aloft c (orientation q ∷ es) = (c.zone ≢ down) × Aloft (on_orientation_data sdk q c) es
  Aloft c (posed p ∷ es) = Aloft (on_pose sdk p c).0 es

  ReferenceOf-kept :
      (y z : Zone) (q : Quaternion) (c d : Collector sdk)
      → y ≢ down
      → ReferenceOf y z q c d
      → (d.reference_quat ≡ c.reference_quat) × (d.reference_roll ≡ c.reference_roll)
  ReferenceOf-kept down z q c d ne h = absurd (ne refl)
  ReferenceOf-kept up z q c d ne h = h
  ReferenceOf-kept mid z q c d ne h = h

  -- Events before none of which the zone is Down keep the reference orientation and the reference
  -- roll.
  pub deliver_keeps_reference :
      (c : Collector sdk) (es : List (Event sdk))
      → Aloft c es
      → ((deliver sdk (on_orientation_data sdk) c es).reference_quat ≡ c.reference_quat)
        × ((deliver sdk (on_orientation_data sdk) c es).reference_roll ≡ c.reference_roll)
  unfolding deliver on_pose
  deliver_keeps_reference c [] h = (refl, refl)
  deliver_keeps_reference c (orientation q ∷ es) h =
      let d = on_orientation_data sdk q c in
      let (p, r) =
        ReferenceOf-kept c.zone (zone_of sdk c.pos) q c d h.0
          (on_orientation_data-ReferenceOf q c) in
      let (p', r') = deliver_keeps_reference d es h.1 in (p' ∙ p, r' ∙ r)
  deliver_keeps_reference c (posed p ∷ es) h = deliver_keeps_reference (on_pose sdk p c).0 es h

  -- The speed of the copy in MyoWin: the old one where the arm is down.
  abbrev pub kept_below : Zone → sdk.Float → sdk.Float → sdk.Float
  kept_below down old new = old
  kept_below up old new = new
  kept_below mid old new = new

  win_by_zone :
      (z : Zone) (q : Quaternion) (c : Collector sdk)
      → win_update_speed sdk z q c ≡ record (update_speed sdk z q c) {
        speed = kept_below z c.speed (update_speed sdk z q c).speed;
      }
  unfolding update_speed measure roll win_update_speed win_measure win_roll
  win_by_zone up q c = refl
  win_by_zone down q c = refl
  win_by_zone mid q c = refl

  copies_locate : (q : Quaternion) (c : Collector sdk) → win_located sdk q c ≡ located sdk q c
  unfolding located update_zone update_pos enter_mid take_reference roll yaw win_located
      win_update_zone win_update_pos win_enter_mid win_take_reference win_roll win_yaw
  copies_locate q c = refl

  kept_below-located :
      (q : Quaternion) (c : Collector sdk) (new : sdk.Float)
      → kept_below (located sdk q c).zone (located sdk q c).speed new
        ≡ kept_below (zone_of sdk c.pos) c.speed new
  kept_below-located q c new =
      ap₂ (λ z v. kept_below z v new) (located-zone sdk q c) (located-speed sdk q c)

  -- The two copies of onOrientationData leave the same but for the speed; by the zone of the
  -- height before, the copy in MyoNucMotor leaves the speed 0 in Down, the truncated reference
  -- roll minus the roll in Mid, and the old speed in Up, and the copy in MyoWin differs from it
  -- only in Down, where it keeps the old speed.
  pub win_on_orientation_data_lem :
      (q : Quaternion) (c : Collector sdk)
      → (win_on_orientation_data sdk q c ≡ record (on_orientation_data sdk q c) {
        speed = kept_below (zone_of sdk c.pos) c.speed (on_orientation_data sdk q c).speed;
      })
        × SpeedOf sdk (zone_of sdk c.pos) q c (on_orientation_data sdk q c)
  unfolding on_orientation_data win_on_orientation_data
  win_on_orientation_data_lem q c =
      let d = located sdk q c in
      (
        ap (λ (e : Collector sdk). win_update_speed sdk e.zone q e) (copies_locate q c)
            ∙ win_by_zone d.zone q d
            ∙ ap (λ (v : sdk.Float). record (update_speed sdk d.zone q d) { speed = v })
                (kept_below-located q c (update_speed sdk d.zone q d).speed),
        on_orientation_data-SpeedOf sdk q c,
      )
