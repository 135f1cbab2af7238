-- ===== src/Copies.antt =====
-- The files of the repository that stand in it a second time with the same text, each as the
-- definitions of its twin: those of the exercises 과제1 of week01, 과제02 of week02 and 과제03 of week03,
-- and qemu/comento.c.
pub mod Kdy01
pub mod Mmio02
pub mod Drivers02
pub mod Board02
pub mod QemuBoard
pub mod Board03
