-- ===== src/Operations/LineSeg.antt =====
-- RefLineSeg of operations/obj-traits/src/geom.rs: a segment of fixed length that follows a line.
use kafka_cad.Prelude.{Option, none, some}
use kafka_cad.Operations.Geom.{
  Line, Floats, add_pt, sub_pt, scale, new_interp, get_interp_along_line,
}
use kafka_cad.Operations.References.{RefId, RefResult, point, line}

-- `interp` is where along the line that is followed the segment starts.
pub record RefLineSeg (F : Type 0) : Type 0 where
  pub refer : Option RefId
  pub line : Line F
  pub length : F
  pub interp : F

module _ (fl : Floats) where
  unfoldable pub new : Line fl.F → RefLineSeg fl.F
  new l = record {
    refer = none;
    line = l;
    length = fl.magnitude (sub_pt fl l.pt_2 l.pt_1);
    interp = new_interp fl fl.zero_f;
  }

  -- The interpolation after an update with a point to snap to.
  unfoldable pub snapped : Line fl.F → Option (RefResult fl.F fl.Json) → fl.F → fl.F
  snapped l (some (point snap)) interp = get_interp_along_line fl l.pt_1 l.pt_2 snap
  snapped l _ interp = interp

  unfoldable pub update :
      RefResult fl.F fl.Json → Option (RefResult fl.F fl.Json) → RefLineSeg fl.F → RefLineSeg fl.F
  update (line l) snap_pt seg =
      let interp = snapped l snap_pt seg.interp in
      let dir = sub_pt fl l.pt_2 l.pt_1 in
      let norm = fl.normalize dir in
      let pt_1 = add_pt fl l.pt_1 (scale fl dir interp) in
      let pt_2 = add_pt fl pt_1 (scale fl norm seg.length) in
      record seg { interp = interp; line = record { pt_1 = pt_1; pt_2 = pt_2 } }
  update _ snap_pt seg = seg

  unfoldable pub set_reference :
      RefResult fl.F fl.Json
      → RefId
      → Option (RefResult fl.F fl.Json)
      → RefLineSeg fl.F
      → RefLineSeg fl.F
  set_reference (line l) refer snap_pt seg =
      update (line l) snap_pt (record seg { refer = some refer })
  set_reference _ refer snap_pt seg = seg

  unfoldable pub get_result : RefLineSeg fl.F → RefResult fl.F fl.Json
  get_result seg = line seg.line
