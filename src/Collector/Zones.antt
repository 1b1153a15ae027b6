-- ===== src/Collector/Zones.antt =====
-- When the listener (MyoNucMotor/MyoNucMotor/DataCollector.cpp, MyoWin/MyoWin/DataCollector.cpp)
-- changes its zone, its reference and the speed.
use myodesignproject.Base.{◌≡◌, refl, ◌∙◌, arith, if◌then◌else◌}
use myodesignproject.Collector.Sdk.{Sdk}
use myodesignproject.Collector.{
  Zone, up, down, mid, Collector, roll, take_reference, enter_mid, update_zone, update_pos, measure,
  update_speed, located, on_orientation_data,
}

module _ (sdk : Sdk) where
  open sdk use {Quaternion, Vector, num, lt, sub, of_int, to_int, from_axis_angle, vector, vz}

  -- The zone of a height; a height that is not a number counts as the middle.
  abbrev pub zone_of : Vector → Zone
  zone_of p = if lt sdk.half (vz p) then up else if lt (vz p) sdk.minus_half then down else mid

  enter_mid-zone :
      (z : Zone) (q : Quaternion) (c : Collector sdk) → (enter_mid sdk z q c).zone ≡ mid
  unfolding enter_mid
  enter_mid-zone down q c = refl
  enter_mid-zone up q c = refl
  enter_mid-zone mid q c = refl

  pub located-zone : (q : Quaternion) (c : Collector sdk) → (located sdk q c).zone ≡ zone_of c.pos
  unfolding located update_zone update_pos
  located-zone q c = ground (arith, enter_mid-zone c.zone q (record c { quat = q }))

  update_speed-zone :
      (z : Zone) (q : Quaternion) (c : Collector sdk) → (update_speed sdk z q c).zone ≡ c.zone
  unfolding update_speed measure
  update_speed-zone up q c = refl
  update_speed-zone down q c = refl
  update_speed-zone mid q c = refl

  -- The zone after an orientation is that of the height which the event before it left: Up above
  -- 0.5, Down below -0.5, and Mid else.
  pub on_orientation_data-zone :
      (q : Quaternion) (c : Collector sdk) → (on_orientation_data sdk q c).zone ≡ zone_of c.pos
  unfolding on_orientation_data
  on_orientation_data-zone q c =
      update_speed-zone (located sdk q c).zone q (located sdk q c) ∙ located-zone q c

  -- The speed that an orientation leaves, by its zone: none below, the roll against the reference
  -- in the middle, and the old one above.
  abbrev pub SpeedOf : Zone → Quaternion → Collector sdk → Collector sdk → Type 0
  SpeedOf down q c d = d.speed ≡ num 0
  SpeedOf mid q c d = d.speed ≡ sub (of_int (to_int d.reference_roll)) (roll sdk q)
  SpeedOf up q c d = d.speed ≡ c.speed

  pub located-speed : (q : Quaternion) (c : Collector sdk) → (located sdk q c).speed ≡ c.speed
  unfolding located update_zone update_pos enter_mid take_reference
  located-speed q c = ground arith

  update_speed-SpeedOf :
      (z : Zone) (q : Quaternion) (c d : Collector sdk)
      → d.speed ≡ c.speed
      → SpeedOf z q c (update_speed sdk z q d)
  unfolding update_speed measure
  update_speed-SpeedOf up q c d e = e
  update_speed-SpeedOf down q c d e = refl
  update_speed-SpeedOf mid q c d e = refl

  -- The speed that an orientation leaves, by the zone of the height before it: 0 in Down, the
  -- truncated reference roll minus the roll in Mid, and the old speed in Up.
  pub on_orientation_data-SpeedOf :
      (q : Quaternion) (c : Collector sdk)
      → SpeedOf (zone_of c.pos) q c (on_orientation_data sdk q c)
  unfolding on_orientation_data
  on_orientation_data-SpeedOf q c =
      rw (← located-zone q c)
        (update_speed-SpeedOf (located sdk q c).zone q c (located sdk q c) (located-speed q c))
