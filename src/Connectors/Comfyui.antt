-- ===== src/Connectors/Comfyui.antt =====
-- packages/connectors/src/comfyui: workflow templates, their submission, and job results.
pub mod Template
pub mod Result
pub mod Submit
