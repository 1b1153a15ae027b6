-- ===== src/Collector/Tests.antt =====
-- The listener (MyoNucMotor/MyoNucMotor/DataCollector.cpp) on whole numbers in place of floats. A
-- quaternion is the height that it turns the arm to; heights below 2 are down, those above 4 up.
use myodesignproject.Base.{ℕ, ◌+◌, ◌-◌, ◌*◌, ◌≡◌, refl, List, [], ◌∷◌, ltb, ◌==◌}
use myodesignproject.Base.Int.{ℤ, pos, negsuc}
use myodesignproject.Collector.Sdk.{Sdk}
use myodesignproject.Collector.{
  down, mid, Collector, initial, on_orientation_data, Event, orientation, posed, deliver, located,
  update_zone, update_pos, enter_mid, take_reference, update_speed, measure, roll, yaw, on_pose,
}
use myodesignproject.Collector.WinCopy.{win_on_orientation_data}
use myodesignproject.Collector.Zones.{zone_of, SpeedOf, on_orientation_data-SpeedOf}
use myodesignproject.Collector.Reference.{
  ReferenceOf, on_orientation_data-ReferenceOf, deliver-initial_rests, Aloft,
  deliver_keeps_reference, kept_below, win_on_orientation_data_lem,
}

abbrev trunc : ℤ → ℕ
trunc (pos n) = n
trunc (negsuc n) = 0

abbrev pub whole : Sdk
whole = record {
  Float = ℕ;
  Quaternion = ℕ;
  Vector = ℕ × (ℕ × ℕ);
  Pose = ℕ;
  num = λ n. n;
  half = 4;
  minus_half = 2;
  minus_one = 0;
  add = λ a b. a + b;
  sub = λ a b. a - b;
  mul = λ a b. a * b;
  lt = λ a b. ltb a b;
  atan2 = λ a b. a;
  to_int = λ a. pos a;
  of_int = trunc;
  degrees = λ a. a;
  identity = 0;
  quaternion = λ a b c d. 0;
  qx = λ q. q;
  qy = λ q. 0;
  qz = λ q. 0;
  qw = λ q. 1;
  conjugate = λ q. 0;
  from_axis_angle = λ v a. a;
  rotate = λ q v. (v.0, (v.1.0, q + v.1.1));
  vector = λ x y z. (x, (y, z));
  vx = λ v. v.0;
  vy = λ v. v.1.0;
  vz = λ v. v.1.1;
  pose_eq = λ p q. p == q;
  unknown = 0;
  rest = 1;
  fingers_spread = 2;
}

-- The arm goes up to 3, stays there, and comes down.
abbrev lift : List (Event whole)
lift = orientation 3 ∷ posed 2 ∷ orientation 3 ∷ []

abbrev lower : List (Event whole)
lower = orientation 3 ∷ orientation 3 ∷ orientation 1 ∷ orientation 1 ∷ []

abbrev held_up : Collector whole
held_up = record {
  reference_quat = 0;
  quat = 3;
  reference_roll = 60;
  pos = (0, (0, 3));
  current_pose = 0;
  zone = mid;
  theta = 0;
  speed = 5;
}

abbrev held_down : Collector whole
held_down = record held_up { zone = down }

lowered : (deliver whole (on_orientation_data whole) (initial whole) lower).zone ≡ down
unfolding deliver on_orientation_data initial located update_zone update_pos enter_mid
    take_reference update_speed measure roll yaw
lowered = refl

deliver-initial_rests_example :
    (deliver whole (on_orientation_data whole) (initial whole) lower).speed ≡ 0
deliver-initial_rests_example = deliver-initial_rests whole lower lowered

aloft : Aloft whole held_up lift
unfolding on_orientation_data located update_zone update_pos enter_mid take_reference update_speed
    measure roll yaw on_pose
aloft = ((λ e. cc), ((λ e. cc), tt))

deliver_keeps_reference_example :
    ((deliver whole (on_orientation_data whole) held_up lift).reference_quat ≡ 0)
    × ((deliver whole (on_orientation_data whole) held_up lift).reference_roll ≡ 60)
deliver_keeps_reference_example = deliver_keeps_reference whole held_up lift aloft

on_orientation_data-SpeedOf_example :
    SpeedOf whole mid 1 held_up (on_orientation_data whole 1 held_up)
on_orientation_data-SpeedOf_example = on_orientation_data-SpeedOf whole 1 held_up

on_orientation_data-ReferenceOf_example :
    ReferenceOf whole down mid 3 held_down (on_orientation_data whole 3 held_down)
on_orientation_data-ReferenceOf_example = on_orientation_data-ReferenceOf whole 3 held_down

win_on_orientation_data_example :
    (win_on_orientation_data whole 3 held_up ≡ record (on_orientation_data whole 3 held_up) {
      speed =
          kept_below whole
            (zone_of whole held_up.pos)
            5
            (on_orientation_data whole 3 held_up).speed;
    })
    × SpeedOf whole (zone_of whole held_up.pos) 3 held_up (on_orientation_data whole 3 held_up)
win_on_orientation_data_example = win_on_orientation_data_lem whole 3 held_up
