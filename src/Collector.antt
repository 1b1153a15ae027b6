-- ===== src/Collector.antt =====
-- The listener DataCollector of MyoNucMotor/MyoNucMotor/DataCollector.{h,cpp} and
-- MyoWin/MyoWin/DataCollector.{h,cpp}, which turns the orientation of the armband into a speed.
-- `onOrientationData` is here as in MyoNucMotor; Collector/WinCopy has it as in MyoWin.
-- The SDK's types and functions and the arithmetic on floats are parameters (`Sdk`).
pub mod Sdk
pub mod Zones
pub mod WinCopy
pub mod Reference
pub mod Print
pub mod Tests
use myodesignproject.Base.{ℕ, Bool, true, false, not, ◌&&◌, ◌||◌, List, [], ◌∷◌, if◌then◌else◌}
use myodesignproject.Base.Int.{ℤ}
use Sdk.{Sdk as Lib}

-- `enum { Up, Down, Mid } Ez`
pub data Zone : Type 0 where
  up down mid : Zone

pub record Collector (sdk : Lib) : Type 0 where
  pub reference_quat : sdk.Quaternion
  pub quat : sdk.Quaternion
  pub reference_roll : sdk.Float
  pub pos : sdk.Vector
  pub current_pose : sdk.Pose
  pub zone : Zone
  pub theta : sdk.Float
  pub speed : sdk.Float

-- What `onPose` asks of the armband.
pub data Request : Type 0 where
  unlock_hold unlock_timed notify_user_action : Request

module _ (sdk : Lib) where
  open sdk use {
    Float, Quaternion, Vector, Pose, num, add, sub, mul, lt, atan2, to_int, of_int, degrees,
    quaternion, qx, qy, qz, qw, conjugate, from_axis_angle, vector, vx, vy, vz, rotate, pose_eq,
    unknown, rest, fingers_spread, identity,
  }

  unfoldable pub initial : Collector sdk
  initial = record {
    reference_quat = quaternion (num 0) (num 0) (num 0) (num 1);
    quat = identity;
    reference_roll = num 0;
    pos = vector sdk.minus_one (num 0) (num 0);
    current_pose = unknown;
    zone = down;
    theta = num 0;
    speed = num 0;
  }

  -- `atan2(2.0f * (w * x + y * z), 1.0f - 2.0f * (x * x + y * y)) * 10`
  unfoldable pub roll : Quaternion → Float
  roll q =
      mul
        (atan2 (mul (num 2) (add (mul (qw q) (qx q)) (mul (qy q) (qz q))))
          (sub (num 1) (mul (num 2) (add (mul (qx q) (qx q)) (mul (qy q) (qy q))))))
        (num 10)

  -- `atan2(2.0f * (w * z + x * y), 1.0f - 2.0f * (y * y + z * z))`
  unfoldable pub yaw : Quaternion → Float
  yaw q =
      atan2 (mul (num 2) (add (mul (qw q) (qz q)) (mul (qx q) (qy q))))
        (sub (num 1) (mul (num 2) (add (mul (qy q) (qy q)) (mul (qz q) (qz q)))))

  -- The first part of `onOrientationData`: the zone by the height that the last event left, and
  -- the reference, which is taken anew on the way up from `down`.
  unfoldable pub take_reference : Quaternion → Collector sdk → Collector sdk
  unfolding roll yaw
  take_reference q c = record c {
    reference_quat = from_axis_angle (vector (num 0) (num 0) (num 1)) (yaw q);
    reference_roll = roll q;
  }

  unfoldable pub enter_mid : Zone → Quaternion → Collector sdk → Collector sdk
  unfolding take_reference
  enter_mid down q c = record (take_reference q c) { zone = mid }
  enter_mid up q c = record c { zone = mid }
  enter_mid mid q c = record c { zone = mid }

  unfoldable pub update_zone : Quaternion → Collector sdk → Collector sdk
  unfolding enter_mid
  update_zone q c =
      if lt sdk.half (vz c.pos)
      then record c { zone = up }
      else if lt (vz c.pos) sdk.minus_half
      then record c { zone = down }
      else enter_mid c.zone q c

  -- The position: the arm's axis, rotated by the orientation, then relative to the reference.
  unfoldable pub update_pos : Quaternion → Collector sdk → Collector sdk
  update_pos q c =
      let p1 = rotate q (vector sdk.minus_one (num 0) (num 0)) in
      let p2 = rotate (conjugate c.reference_quat) p1 in
      record c { pos = rotate (quaternion (num 0) (num 0) (num 1) (num 0)) p2 }

  -- `theta` and `speed = (int) referenceRoll - roll`: the cast is of `referenceRoll` alone.
  unfoldable pub measure : Quaternion → Collector sdk → Collector sdk
  unfolding roll
  measure q c = record c {
    theta = degrees (atan2 (vy c.pos) (vx c.pos));
    speed = sub (of_int (to_int c.reference_roll)) (roll q);
  }

  -- The last part of the copy in MyoNucMotor: down stops the motor.
  unfoldable pub update_speed : Zone → Quaternion → Collector sdk → Collector sdk
  unfolding measure
  update_speed mid q c = measure q c
  update_speed down q c = record c { speed = num 0 }
  update_speed up q c = c

  unfoldable pub located : Quaternion → Collector sdk → Collector sdk
  unfolding update_zone update_pos
  located q c = update_pos q (update_zone q (record c { quat = q }))

  -- `onOrientationData` of MyoNucMotor
  unfoldable pub on_orientation_data : Quaternion → Collector sdk → Collector sdk
  unfolding located update_speed
  on_orientation_data q c = let d = located q c in update_speed d.zone q d

  -- `onPose`, with what it asks of the armband in turn.
  unfoldable pub on_pose : Pose → Collector sdk → Collector sdk × List Request
  on_pose p c = (
    record c { current_pose = p },
    if not (pose_eq p unknown) && not (pose_eq p rest)
        then unlock_hold ∷ notify_user_action ∷ []
        else unlock_timed ∷ [],
  )

  -- `isupdateReference`
  unfoldable pub is_update_reference : Float → Collector sdk → Bool
  is_update_reference z c =
      if lt sdk.minus_half z && lt z sdk.half then pose_eq c.current_pose fingers_spread else false

  -- What `hub.run` delivers to the listener.
  pub data Event : Type 0 where
    orientation : Quaternion → Event
    posed : Pose → Event

  -- The events of one `hub.run`, by the handler for orientations of either copy.
  unfoldable pub deliver :
      (Quaternion → Collector sdk → Collector sdk) → Collector sdk → List Event → Collector sdk
  deliver handler c [] = c
  deliver handler c (orientation q ∷ es) = deliver handler (handler q c) es
  deliver handler c (posed p ∷ es) = deliver handler (on_pose p c).0 es
