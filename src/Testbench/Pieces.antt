-- ===== src/Testbench/Pieces.antt =====
-- testbench/testbench.cc: the requests of the benchmark and the limits of the service.
use prob_alimama_2023_a.Base.{ℕ, zero, suc, ◌+◌, ◌*◌, ◌≤◌, ◌<◌, ◌≡◌, refl, arith, length, All}
use prob_alimama_2023_a.Request.Located.{total_len}
use prob_alimama_2023_a.Allocator.{k_block_size}
use prob_alimama_2023_a.Model.{ModelMeta}
use prob_alimama_2023_a.Options.{Options}
use prob_alimama_2023_a.Hdfs.{HdfsApi, ReadLaws, Readable}
use prob_alimama_2023_a.Hdfs.Local.{Disk}
use prob_alimama_2023_a.Handler.{SliceReader}
use prob_alimama_2023_a.Cluster.{slice_content, ReadsFile}
use prob_alimama_2023_a.Cluster.Stored.{Piece}
use prob_alimama_2023_a.Testbench.{add_slice_requests, load_request}

total_len-add_slice_requests :
    (partition : ℕ → ℕ) (i n : ℕ) → total_len (add_slice_requests partition i n) ≡ 16 * n
unfolding add_slice_requests
total_len-add_slice_requests partition i zero = refl
total_len-add_slice_requests partition i (suc n) =
    omega (arith, total_len-add_slice_requests partition (suc i) n)

module _ (api : HdfsApi) (laws : ReadLaws api) (sane : Readable api) (reader : SliceReader)
    (reads : ReadsFile reader) (fuel : ℕ) (options : Options) (disks readys : ℕ → Disk)
    (model : ModelMeta) (per : ℕ) (partition : ℕ → ℕ) where
  add_slice_requests-Piece :
      (i n : ℕ)
      → i + n ≤ 1000
      → ((k : ℕ)
          → k < 1000
          → (partition k < model.slice_num)
            × (1015 ≤ length (slice_content api model.slices (partition k))))
      → All
          (Piece api laws sane reader reads fuel options disks readys model per)
          (add_slice_requests partition i n)
  unfolding add_slice_requests
  add_slice_requests-Piece i zero h big = tt
  add_slice_requests-Piece i (suc n) h big = (
    record {
      has = (big i (omega (arith, h))).0;
      start_fits = omega (arith, h);
      short = omega arith;
      inside = omega (arith, h, (big i (omega (arith, h))).1);
    },
    add_slice_requests-Piece (suc i) n (omega (arith, h)) big,
  )

  -- If the model has the slices that the request names, with 1,015 bytes each at least: each piece
  -- of the request of the benchmark is one that the service has room for, and together they fit one
  -- block.
  pub load_request-Piece :
      ((k : ℕ)
        → k < 1000
        → (partition k < model.slice_num)
          × (1015 ≤ length (slice_content api model.slices (partition k))))
      → All
          (Piece api laws sane reader reads fuel options disks readys model per)
          (load_request partition)
        × (total_len (load_request partition) ≤ k_block_size)
  unfolding load_request
  load_request-Piece big = (
    add_slice_requests-Piece 0 1000 (omega arith) big,
    omega (arith, total_len-add_slice_requests partition 0 1000),
  )
