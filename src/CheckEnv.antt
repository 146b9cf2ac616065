-- ===== src/CheckEnv.antt =====
-- CheckEnv/src/main/cpp: the checks of the environment that an Android application runs in.
pub mod System
pub mod Decimal
pub mod Common
pub mod Texts
pub mod MobileInfo
pub mod Debug
pub mod Root
pub mod Sign
pub mod MultiOpen
pub mod Magisk
