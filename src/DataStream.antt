-- ===== src/DataStream.antt =====
-- include/archive_r/data_stream.h: `IDataStream`, as the record of its virtual functions over the
-- state of the stream, and `MultiVolumeStreamBase` as one. src/data_stream.cc: the storage of the
-- registered factory; a `std::function` that is empty is `none`, and a call holds the mutex throughout.
use archive_r.Base.{ℕ, Bool, Option, ℤ}
use archive_r.Fault.{Result, ok}
use archive_r.VolumeStream.Parts.{PartIo, Config, Stream, ReadEnd, SeekEnd, Whence}
use archive_r.VolumeStream.{
  read as read_volumes, rewind as rewind_volumes, seek as seek_volumes, tell as tell_volumes,
}

pub record DataStream (S : Type 0) : Type 0 where
  pub read : ℕ → S → ReadEnd × S
  pub rewind : S → Result (Unit {0}) × S
  pub seek : ℤ → Whence → S → SeekEnd × S
  pub tell : S → ℤ
  pub can_seek : Bool

unfoldable pub volume_stream : {B : Type 0} → PartIo B → Config → DataStream (Stream B)
volume_stream io c = record {
  read = read_volumes io c;
  rewind = λ s. (ok tt, rewind_volumes io c s);
  seek = seek_volumes io c;
  tell = tell_volumes io c;
  can_seek = c.supports_seek;
}

unfoldable pub set_root_stream_factory : {F : Type 0} → Option F → Option F → Option F
set_root_stream_factory factory storage = factory

unfoldable pub get_root_stream_factory : {F : Type 0} → Option F → Option F
get_root_stream_factory storage = storage
