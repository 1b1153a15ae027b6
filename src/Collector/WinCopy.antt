-- ===== src/Collector/WinCopy.antt =====
-- `onOrientationData` of MyoWin/MyoWin/DataCollector.cpp, the copy of the listener in MyoWin.
use myodesignproject.Base.{if◌then◌else◌}
use myodesignproject.Collector.Sdk.{Sdk as Lib}
use myodesignproject.Collector.{Zone, up, down, mid, Collector}

module _ (sdk : Lib) where
  open sdk use {
    Float, Quaternion, num, add, sub, mul, lt, atan2, to_int, of_int, degrees, quaternion, qx, qy,
    qz, qw, conjugate, from_axis_angle, vector, vx, vy, vz, rotate,
  }

  -- `atan2(2.0f * (w * x + y * z), 1.0f - 2.0f * (x * x + y * y)) * 10`
  unfoldable pub win_roll : Quaternion → Float
  win_roll q =
      mul
        (atan2 (mul (num 2) (add (mul (qw q) (qx q)) (mul (qy q) (qz q))))
          (sub (num 1) (mul (num 2) (add (mul (qx q) (qx q)) (mul (qy q) (qy q))))))
        (num 10)

  -- `atan2(2.0f * (w * z + x * y), 1.0f - 2.0f * (y * y + z * z))`
  unfoldable pub win_yaw : Quaternion → Float
  win_yaw q =
      atan2 (mul (num 2) (add (mul (qw q) (qz q)) (mul (qx q) (qy q))))
        (sub (num 1) (mul (num 2) (add (mul (qy q) (qy q)) (mul (qz q) (qz q)))))

  -- The first part of `onOrientationData`: the zone by the height that the last event left, and
  -- the reference, which is taken anew on the way up from `down`.
  unfoldable pub win_take_reference : Quaternion → Collector sdk → Collector sdk
  unfolding win_roll win_yaw
  win_take_reference q c = record c {
    reference_quat = from_axis_angle (vector (num 0) (num 0) (num 1)) (win_yaw q);
    reference_roll = win_roll q;
  }

  unfoldable pub win_enter_mid : Zone → Quaternion → Collector sdk → Collector sdk
  unfolding win_take_reference
  win_enter_mid down q c = record (win_take_reference q c) { zone = mid }
  win_enter_mid up q c = record c { zone = mid }
  win_enter_mid mid q c = record c { zone = mid }

  unfoldable pub win_update_zone : Quaternion → Collector sdk → Collector sdk
  unfolding win_enter_mid
  win_update_zone q c =
      if lt sdk.half (vz c.pos)
      then record c { zone = up }
      else if lt (vz c.pos) sdk.minus_half
      then record c { zone = down }
      else win_enter_mid c.zone q c

  -- The position: the arm's axis, rotated by the orientation, then relative to the reference.
  unfoldable pub win_update_pos : Quaternion → Collector sdk → Collector sdk
  win_update_pos q c =
      let p1 = rotate q (vector sdk.minus_one (num 0) (num 0)) in
      let p2 = rotate (conjugate c.reference_quat) p1 in
      record c { pos = rotate (quaternion (num 0) (num 0) (num 1) (num 0)) p2 }

  -- `theta` and `speed = (int) referenceRoll - roll`: the cast is of `referenceRoll` alone.
  unfoldable pub win_measure : Quaternion → Collector sdk → Collector sdk
  unfolding win_roll
  win_measure q c = record c {
    theta = degrees (atan2 (vy c.pos) (vx c.pos));
    speed = sub (of_int (to_int c.reference_roll)) (win_roll q);
  }

  -- The last part, which keeps the speed in `down`.
  unfoldable pub win_update_speed : Zone → Quaternion → Collector sdk → Collector sdk
  unfolding win_measure
  win_update_speed mid q c = win_measure q c
  win_update_speed down q c = c
  win_update_speed up q c = c

  unfoldable pub win_located : Quaternion → Collector sdk → Collector sdk
  unfolding win_update_zone win_update_pos
  win_located q c = win_update_pos q (win_update_zone q (record c { quat = q }))

  unfoldable pub win_on_orientation_data : Quaternion → Collector sdk → Collector sdk
  unfolding win_located win_update_speed
  win_on_orientation_data q c = let d = win_located q c in win_update_speed d.zone q d
