-- ===== src/Collector/Sdk.antt =====
-- What MyoNucMotor/MyoNucMotor/DataCollector.cpp uses of the Myo SDK (include/myo) and of the
-- arithmetic on floats.
use myodesignproject.Base.{ℕ, Bool}
use myodesignproject.Base.Int.{ℤ}

pub record Sdk : Type 1 where
  pub Float : Type 0
  pub Quaternion : Type 0
  pub Vector : Type 0
  pub Pose : Type 0
  -- the float of a small number, and the other constants of the source
  pub num : ℕ → Float
  pub half : Float
  pub minus_half : Float
  pub minus_one : Float
  pub add : Float → Float → Float
  pub sub : Float → Float → Float
  pub mul : Float → Float → Float
  -- `a < b`; false where one of them is not a number
  pub lt : Float → Float → Bool
  pub atan2 : Float → Float → Float
  -- `(int) x` and the conversion back
  pub to_int : Float → ℤ
  pub of_int : ℤ → Float
  -- `x * 180 / M_PI`
  pub degrees : Float → Float
  -- Quaternion.hpp
  pub identity : Quaternion
  pub quaternion : Float → Float → Float → Float → Quaternion
  pub qx : Quaternion → Float
  pub qy : Quaternion → Float
  pub qz : Quaternion → Float
  pub qw : Quaternion → Float
  pub conjugate : Quaternion → Quaternion
  pub from_axis_angle : Vector → Float → Quaternion
  pub rotate : Quaternion → Vector → Vector
  -- Vector3.hpp
  pub vector : Float → Float → Float → Vector
  pub vx : Vector → Float
  pub vy : Vector → Float
  pub vz : Vector → Float
  -- Pose.hpp
  pub pose_eq : Pose → Pose → Bool
  pub unknown : Pose
  pub rest : Pose
  pub fingers_spread : Pose
