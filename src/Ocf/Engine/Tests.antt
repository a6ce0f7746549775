-- ===== src/Ocf/Engine/Tests.antt =====
-- A write-back cache of 100 lines whose count of dirty requests is free.
use cora.Base.{◌≡◌, refl, true, false, none}
use cora.Ocf.Err.{ok}
use cora.Ocf.Refcnt.{refcnt_init}
use cora.Ocf.Engine.{
  wb, no_mode, Cache, Request, writes, engine_hndl_req, resolve_effective_cache_mode,
}
use cora.Ocf.Engine.Modes.{
  is_bypass, IsResolved, resolve_effective_cache_mode-IsResolved, engine_hndl_req-resolved,
}

abbrev write_back : Cache
write_back = record {
  fallback_pt_error_counter = 0;
  fallback_pt_error_threshold = 0;
  pt_unaligned_io = true;
  cachelines = 100;
  cache_mode = wb;
  part_is_valid = λ _. true;
  part_cache_mode = λ _. no_mode;
  dirty = refcnt_init;
}

abbrev write_4k : Request
write_4k = record {
  is_d2c = false;
  byte_position = 8192;
  byte_length = 4096;
  core_line_count = 1;
  part_id = 0;
  rw = writes;
  mode = no_mode;
  seq_cutoff = false;
  dirty = false;
  io_if = none;
  refs = 1;
}

resolve_effective_cache_mode-IsResolved_example :
    IsResolved false
      (is_bypass false write_back write_4k)
      write_back
      writes
      (resolve_effective_cache_mode false write_back write_4k)
resolve_effective_cache_mode-IsResolved_example =
    resolve_effective_cache_mode-IsResolved false write_back write_4k refl

engine_hndl_req-resolved_example :
    (engine_hndl_req (resolve_effective_cache_mode false write_back write_4k).1).0 ≡ ok
engine_hndl_req-resolved_example = engine_hndl_req-resolved false write_back write_4k refl
