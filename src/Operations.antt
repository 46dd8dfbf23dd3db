-- ===== src/Operations.antt =====
-- The libraries of the operations service: operations/obj-traits and operations/obj-defs.
pub mod Geom
pub mod References
pub mod LineSeg
pub mod Wall
pub mod Door
pub mod Sheet
pub mod Viewport
pub mod VisibilityGroup
pub mod SymbolDef
pub mod SymbolInstance
pub mod Data
pub mod DataBox
pub mod Errors
pub mod Joins
pub mod UpdateAll
pub mod Ops
pub mod Convert
pub mod Server
pub mod Drawing
pub mod Views
