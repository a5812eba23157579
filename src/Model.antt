-- ===== src/Model.antt =====
-- src/model.py: layers, routing, and the decoder graphs that `Transformer` builds.
pub mod Types
pub mod Arith
pub mod Layer
pub mod Routing
pub mod Transformer
pub mod Vision
pub mod Decoder
pub mod VisionDecoder
pub mod Build
pub mod Work
