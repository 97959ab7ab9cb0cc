-- ===== src/ActivationResult.antt =====
-- sdk_cpp/include/Robotiq/gripper/activation_result.hpp
pub data ActivationResult : Type 0 where
  activated already_active fault_latched timeout : ActivationResult
