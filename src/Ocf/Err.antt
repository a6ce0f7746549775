-- ===== src/Ocf/Err.antt =====
-- overlaybd/src/overlaybd/cache/ocf_cache/ocf/inc/ocf_err.h: the error enumerator.

pub data OcfErr : Type 0 where
  inval : OcfErr
  again : OcfErr
  intr : OcfErr
  not_supp : OcfErr
  no_mem : OcfErr
  no_lock : OcfErr
  metadata_ver : OcfErr
  no_metadata : OcfErr
  metadata_found : OcfErr
  inval_volume_type : OcfErr
  unknown : OcfErr
  too_many_caches : OcfErr
  no_free_ram : OcfErr
  start_cache_fail : OcfErr
  cache_not_exist : OcfErr
  core_not_exist : OcfErr
  cache_exist : OcfErr
  core_exist : OcfErr
  too_many_cores : OcfErr
  core_not_avail : OcfErr
  not_open_exc : OcfErr
  cache_not_avail : OcfErr
  io_class_not_exist : OcfErr
  io : OcfErr
  write_cache : OcfErr
  write_core : OcfErr
  dirty_shutdown : OcfErr
  dirty_exists : OcfErr
  flushing_interrupted : OcfErr
  flush_in_progress : OcfErr
  cannot_add_core_to_pool : OcfErr
  cache_in_incomplete_state : OcfErr
  core_in_inactive_state : OcfErr
  invalid_cache_mode : OcfErr
  invalid_cache_line_size : OcfErr
  cache_name_mismatch : OcfErr
  inval_cache_dev : OcfErr
  core_uuid_exists : OcfErr

-- A C `int` result: zero, or an error code with a minus sign.
pub data Status : Type 0 where
  ok : Status
  fail : OcfErr → Status
