-- ===== src/Ros/Answering.antt =====
-- `trajThread` of src/ur_ros_wrapper.cpp: the trajectory is followed, and the goal is answered.
use ur_modern_driver.Common.{List}
use ur_modern_driver.Double.{Platform}
use ur_modern_driver.Ros.Defs.{Result, RosWrapper, successful}

module _ {D : Type 0} ⦃d : Platform D⦄ where
  open d use {le}

  -- The result that the goal is answered with: the text is that of the result before.
  abbrev pub answer_of : RosWrapper D → Result
  answer_of ros = record (ros.result) { error_code = successful }
