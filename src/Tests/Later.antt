-- ===== src/Tests/Later.antt =====
-- A packet of a version that is not known yet.
use libpueorawdata.Prelude.{◌<◌, ◌≡◌, refl, false, [], ◌∷◌, ◌++◌, arith}
use libpueorawdata.Prelude.Run.{fault, out_of_bounds}
use libpueorawdata.Prelude.Memory.{Bytes, zeros}
use libpueorawdata.Datatype.{nav_att, latest_version}
use libpueorawdata.Handle.{Handle}
use libpueorawdata.Handle.File.{File, file_ops}
use libpueorawdata.Rawio.{read_typed}
use libpueorawdata.Rawio.RoundTrip.{packet_bytes}
use libpueorawdata.Rawio.RoundTrip.Unknown.{read_typed-unknown}
use libpueorawdata.Tests.Sample.{sample_nav_att}

abbrev later_payload : Bytes
later_payload = 1 ∷ 2 ∷ 3 ∷ []

abbrev later_file : Handle File
later_file = record {
  packet_write_counter = 0;
  last_read_header = zeros 8;
  required_read_size = 0;
  already_read_head = false;
  bytes_written = 0;
  bytes_read = 0;
  aux = record { unread = packet_bytes nav_att 3 later_payload ++ []; written = []; room = 0 };
  log = [];
}

later_version : latest_version nav_att < 3
unfolding latest_version
later_version = omega arith

read_typed-unknown_example :
    read_typed nav_att file_ops sample_nav_att later_file ≡ fault out_of_bounds
read_typed-unknown_example =
    read_typed-unknown nav_att 3 later_payload sample_nav_att [] later_file refl later_version
      (omega arith) (record { no_head = refl; head_room = refl }) refl
