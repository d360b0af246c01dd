-- ===== src/Zlib/Fed.antt =====
-- Compressing ends, if the streams of flate2 make progress.
use ssh_rs.Base.{ℕ, ◌<◌, ◌≡◌, refl, [], ◌==◌, leb, length, drop, arith, if-cases}
use ssh_rs.Error.{IsFed}
use ssh_rs.Data.{Bytes}
use ssh_rs.Io.Fed.{Round, drive-Pays, Paid-IsFed}
use ssh_rs.Zlib.{
  FlateStatus, status_ok, stream_end, buf_error, flate_error, Flated, Flate, CompressZlib,
  go_on_with, CompressBox, compress_none, compress_zlib, decompress_round, compress_round,
  decompress, compress, compression,
}

-- What is documented of flate2: a call that returns `Ok` has made progress, on what it has left of
-- the input.
pub record FlateLaws {Z Y : Type 0} (flate : Flate Z Y) : Type 0 where
  pub decompress_progress :
      (z : Z) (buf : Bytes)
      → (flate.decompress z buf).0.status ≡ status_ok
      → flate.decompress_rank
          (flate.decompress z buf).1
          (drop (flate.decompress z buf).0.consumed buf)
        < flate.decompress_rank z buf
  pub compress_progress :
      (y : Y) (buf : Bytes)
      → (flate.compress y buf).0.status ≡ status_ok
      → flate.compress_rank (flate.compress y buf).1 (drop (flate.compress y buf).0.consumed buf)
        < flate.compress_rank y buf

-- A round of either loop, for the rank of its stream.
go_on_with-Round :
    {X : Type 0} (rank : X → Bytes → ℕ) (ends : Bytes) (f : Flated) (status : FlateStatus)
    (t : Bytes × Bytes) (x : X) (r : ℕ)
    → f.status ≡ status
    → (status ≡ status_ok → rank x (drop f.consumed t.0) < r)
    → Round (λ x. 0) (λ t x. rank x t.0) (λ b. 0) 0 r (go_on_with ends f t, x)
unfolding go_on_with
go_on_with-Round rank ends f status_ok t x r e h = rw e (
    if-cases
      (λ o. Round {T = Bytes × Bytes} {A = Bytes} (λ x. 0) (λ t x. rank x t.0) (λ b. 0) 0 r (o, x))
      (leb f.consumed (length t.0)) _ _ (λ q. (h refl, omega arith)) (λ q. tt))
go_on_with-Round rank ends f stream_end t x r e h = rw e tt
go_on_with-Round rank ends f buf_error t x r e h = rw e (omega arith)
go_on_with-Round rank ends f (flate_error y) t x r e h = rw e tt

module _ {Z Y : Type 0} (flate : Flate Z Y) (laws : FlateLaws flate) where
  decompress-IsFed : (buf : Bytes) (c : CompressZlib Z Y) → IsFed (decompress flate buf c).0
  unfolding decompress decompress_round
  decompress-IsFed buf c =
      Paid-IsFed (λ x. 0) (λ b. 0) 0 _
        (drive-Pays (λ x. 0) (λ t z. flate.decompress_rank z t.0) (λ b. 0) (decompress_round flate)
          (λ t z.
            go_on_with-Round flate.decompress_rank _ (flate.decompress z t.0).0 _ t _ _ refl
              (laws.decompress_progress z t.0))
          (buf, []) c.decompressor)

  compress-IsFed : (buf : Bytes) (c : CompressZlib Z Y) → IsFed (compress flate buf c).0
  unfolding compress compress_round
  compress-IsFed buf c =
      Paid-IsFed (λ x. 0) (λ b. 0) 0 _
        (drive-Pays (λ x. 0) (λ t y. flate.compress_rank y t.0) (λ b. 0) (compress_round flate)
          (λ t y.
            if-cases
              (λ o.
                Round {T = Bytes × Bytes} {A = Bytes} (λ x. 0) (λ t y. flate.compress_rank y t.0)
                  (λ b. 0) 0 (flate.compress_rank y t.0) (o, (flate.compress y t.0).1))
              (length (flate.compress y t.0).0.produced == 6) _ _ (λ e. omega arith)
              (λ e.
                go_on_with-Round flate.compress_rank _ (flate.compress y t.0).0 _ t _ _ refl
                  (laws.compress_progress y t.0)))
          (buf, []) c.compressor)

  pub compress_of-IsFed :
      (c : CompressBox Z Y) (buf : Bytes) → IsFed ((compression flate).compress c buf).0
  compress_of-IsFed compress_none buf = tt
  compress_of-IsFed (compress_zlib c) buf = compress-IsFed buf c

  pub decompress_of-IsFed :
      (c : CompressBox Z Y) (buf : Bytes) → IsFed ((compression flate).decompress c buf).0
  decompress_of-IsFed compress_none buf = tt
  decompress_of-IsFed (compress_zlib c) buf = decompress-IsFed buf c
