-- ===== src/Examples.antt =====
-- Concrete servers, codecs and inputs at which the theorems are applied.
mod Server
mod Blobs
mod Coders
mod Objects
mod Undo
mod Printing
mod Dependencies
mod Restores
mod Takes
mod RepCache
mod Submit
mod Written
mod Representations
mod Updates
mod Wall
mod Boxes
mod Operations
mod Api
mod Drawing
