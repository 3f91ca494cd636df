-- ===== src/Core/Commands.antt =====
-- terminal/src/core/CommandQueue.h: control commands on their way from the client sessions to the
-- business thread. `R` stands for the C++ type double. The mutex makes each call one step.
use qt_s5p6818_face_tracking.Base.{Bool, List, [], ◌∷◌, ◌++◌, Option, none, some}

pub data CommandType : Type 0 where
  servo_step servo_abs set_mode : CommandType

pub record Command (R : Type 0) : Type 0 where
  pub type : CommandType
  pub pan : R
  pub tilt : R
  pub auto_track : Bool

module _ {R : Type 0} where
  unfoldable pub push : List (Command R) → Command R → List (Command R)
  push q c = q ++ c ∷ []

  -- `none` is the result false, of an empty queue.
  unfoldable pub try_pop : List (Command R) → Option (Command R × List (Command R))
  try_pop [] = none
  try_pop (c ∷ q) = some (c, q)
