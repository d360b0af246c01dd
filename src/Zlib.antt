-- ===== src/Zlib.antt =====
-- algorithm/compression: zlib.rs over the crate flate2, which is a parameter, and the choice of a
-- compressor in mod.rs.
pub mod Fed
use ssh_rs.Base.{ℕ, List, [], ◌++◌, Bool, ◌⊎◌, inl, inr, ◌==◌, leb, length, drop, if◌then◌else◌}
use ssh_rs.Error.{SshResult, ok, err, panic, compression_error}
use ssh_rs.Constant.{ascii}
use ssh_rs.Data.{Bytes}
use ssh_rs.Algorithm.{Compress, zlib, zlib_open_ssh}
use ssh_rs.Algorithm
use ssh_rs.Io.{Io, drive}
use ssh_rs.Client.{Compression}

-- `flate2::Status`, or the text of an error.
pub data FlateStatus : Type 0 where
  status_ok stream_end buf_error : FlateStatus
  flate_error : Bytes → FlateStatus

-- What one call has done: how many bytes it took, and which bytes it wrote into the buffer.
pub record Flated : Type 0 where
  pub status : FlateStatus
  pub consumed : ℕ
  pub produced : Bytes

-- The streams `Z` that decompress and `Y` that compress. Their ranks count the calls in which they
-- can still make progress on an input.
pub record Flate (Z Y : Type 0) : Type 0 where
  pub decompress_new : Z
  pub compress_new : Y
  pub decompress : Z → Bytes → Flated × Z
  pub compress : Y → Bytes → Flated × Y
  pub decompress_rank : Z → Bytes → ℕ
  pub compress_rank : Y → Bytes → ℕ

pub record CompressZlib (Z Y : Type 0) : Type 0 where
  pub decompressor : Z
  pub compressor : Y

-- The end of a round: the rest of the input and the output so far, or all of the output.
unfoldable pub go_on_with : Bytes → Flated → Bytes × Bytes → SshResult ((Bytes × Bytes) ⊎ Bytes)
go_on_with ends f (buf_in, buf_out) = elim f.status [
  | status_ok ↦
      if leb f.consumed (length buf_in)
      then ok (inl (drop f.consumed buf_in, buf_out ++ f.produced))
      else panic
  | stream_end ↦ err (compression_error ends)
  | buf_error ↦ ok (inr buf_out)
  | flate_error e ↦ err (compression_error e)
]

-- A compressor behind `Box<dyn Compression>`.
pub data CompressBox (Z Y : Type 0) : Type 0 where
  compress_none : CompressBox Z Y
  compress_zlib : CompressZlib Z Y → CompressBox Z Y

module _ {Z Y : Type 0} (flate : Flate Z Y) where
  abbrev pub new : CompressZlib Z Y
  new = record { decompressor = flate.decompress_new; compressor = flate.compress_new }

  unfoldable pub decompress_round : Bytes × Bytes → Io Z ((Bytes × Bytes) ⊎ Bytes)
  decompress_round t z =
      let (f, z') = flate.decompress z t.0 in
      (go_on_with (ascii "Stream ends during the decompress") f t, z')

  -- A call that produces 6 bytes ends the loop, and they are not in the output.
  unfoldable pub compress_round : Bytes × Bytes → Io Y ((Bytes × Bytes) ⊎ Bytes)
  compress_round t y =
      let (f, y') = flate.compress y t.0 in
      (
        if length f.produced == 6
            then ok (inr t.1)
            else go_on_with (ascii "Stream ends during the compress") f t,
        y',
      )

  unfoldable pub decompress : Bytes → Io (CompressZlib Z Y) Bytes
  decompress buf c =
      let (r, z) =
        drive (λ t z. flate.decompress_rank z t.0) decompress_round (buf, []) c.decompressor in
      (r, record c { decompressor = z })

  unfoldable pub compress : Bytes → Io (CompressZlib Z Y) Bytes
  compress buf c =
      let (r, y) = drive (λ t y. flate.compress_rank y t.0) compress_round (buf, []) c.compressor in
      (r, record c { compressor = y })

  abbrev pub compress_of : CompressBox Z Y → Bytes → SshResult Bytes × CompressBox Z Y
  compress_of compress_none buf = (ok buf, compress_none)
  compress_of (compress_zlib c) buf = let (r, c') = compress buf c in (r, compress_zlib c')

  abbrev pub decompress_of : CompressBox Z Y → Bytes → SshResult Bytes × CompressBox Z Y
  decompress_of compress_none buf = (ok buf, compress_none)
  decompress_of (compress_zlib c) buf = let (r, c') = decompress buf c in (r, compress_zlib c')

  -- The trait, by the object in the box.
  abbrev pub compression : Compression (CompressBox Z Y)
  compression = record { compress = compress_of; decompress = decompress_of }

  unfoldable pub from : Compress → CompressBox Z Y
  from Algorithm.none = compress_none
  from zlib = compress_zlib new
  from zlib_open_ssh = compress_zlib new
