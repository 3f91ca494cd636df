-- ===== src/Core/Hub.antt =====
-- terminal/src/core/FrameHub.h: the latest frame, shared by the vision thread with all readers.
-- Frames are immutable, so a shared pointer is the frame itself, and `none` is nullptr.
use qt_s5p6818_face_tracking.Base.{ℕ, Bytes, Option, some}

-- `mat` is OpenCV's picture; the sizes are not negative.
pub record Frame (Image : Type 0) : Type 0 where
  pub mat : Image
  pub jpeg : Bytes
  pub seq : ℕ
  pub width : ℕ
  pub height : ℕ
  pub ts_ms : ℕ

module _ {Image : Type 0} where
  unfoldable pub publish : Option (Frame Image) → Frame Image → Option (Frame Image)
  publish hub f = some f

  unfoldable pub latest : Option (Frame Image) → Option (Frame Image)
  latest hub = hub
