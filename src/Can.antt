-- ===== src/Can.antt =====
-- src/base/can_fpu_recv_send.c and can_gpu_recv_send.c: the drivers for CAN.
pub mod Fpu
pub mod Gpu
