-- ===== src/Gpu.antt =====
-- GPU resources: PCI addresses (python/ai_how/src/ai_how/utils/gpu_utils.py), the allocation table
-- (resource_management/gpu_allocator.py) and the detection of GPUs shared between clusters.
pub mod Address
pub mod Allocator
pub mod Sharing
