-- ===== src/Zfile/Tests.antt =====
-- A chunker of 4 KiB to 64 KiB on concrete reads.
use cora.Base.{ℕ, ◌%◌, ◌≡◌, List, [], ◌∷◌, false, some, arith}
use cora.Chunking.{Memory, Globals}
use cora.Zfile.{FastCdcChunker, Process, fast_cdc_chunker, Batch, chunk_buffer}
use cora.Zfile.Progress.{IsOwned, fast_cdc_chunker-IsOwned}
use cora.Zfile.Tiles.{Tiles, chunk_buffer-Tiles}

-- A digest that depends on nothing.
abbrev digest : List ℕ → List ℕ
digest xs = 1 ∷ 2 ∷ 3 ∷ 4 ∷ []

abbrev fresh_process : Process
fresh_process = record {
  s_initialized = false;
  globals = record {
    learv2 = [];
    global_matrix = [];
    global_matrix_left = [];
    min_size = 0;
    max_size = 0;
    min_size_divide_by_2 = 0;
    mask_15 = 0;
    mask_11 = 0;
    mask_15_64 = 0;
    mask_11_64 = 0;
    expect_cs = 0;
  };
}

abbrev chunker : FastCdcChunker
chunker = (fast_cdc_chunker digest 4096 16384 65536 fresh_process).1

abbrev owned_globals : Globals
owned_globals = (fast_cdc_chunker digest 4096 16384 65536 fresh_process).0.globals

abbrev counting : Memory
counting i = i % 256

chunker-IsOwned : IsOwned chunker owned_globals
chunker-IsOwned =
    fast_cdc_chunker-IsOwned digest 4096 16384 65536 fresh_process (omega arith) (omega arith)
      (omega arith)

chunk_buffer-Tiles_example :
    (bs : List Batch) × (chunk_buffer chunker counting 100000 4 owned_globals ≡ some bs)
    × Tiles chunker 100000 4 0 bs
chunk_buffer-Tiles_example =
    chunk_buffer-Tiles chunker owned_globals counting 100000 4
      (fast_cdc_chunker-IsOwned digest 4096 16384 65536 fresh_process (omega arith) (omega arith)
        (omega arith))
      (omega arith)
