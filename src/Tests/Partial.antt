-- ===== src/Tests/Partial.antt =====
-- A descriptor on a medium that fills up inside a payload.
use libpueorawdata.Prelude.{ℕ, ◌-◌, ◌≡◌, refl, min, length, []}
use libpueorawdata.Prelude.Int.{pos}
use libpueorawdata.Prelude.Run.{done}
use libpueorawdata.Datatype.{nav_att, size_of}
use libpueorawdata.Handle.{hinit}
use libpueorawdata.Handle.Header.{encode_head}
use libpueorawdata.Handle.Device.{Device, fd_ops, gz_ops}
use libpueorawdata.Rawio.{write_typed}
use libpueorawdata.Rawio.Short.{after_part, write_typed-partial}
use libpueorawdata.Tests.Sample.{sample_nav_att}

-- With room for that many bytes.
abbrev nearly_full : Device ℕ
nearly_full = record {
  write = λ bs room. (pos (min (length bs) room), room - min (length bs) room);
  read = λ n room. (pos 0, [], room);
}

write_typed-partial_example :
    (write_typed nav_att (fd_ops nearly_full) sample_nav_att (hinit 10)
      ≡ done (pos 10, after_part 2 0 (hinit 10)))
    × (write_typed nav_att (gz_ops nearly_full) sample_nav_att (hinit 10)
        ≡ done (pos 10, after_part 2 0 (hinit 10)))
unfolding size_of encode_head hinit
write_typed-partial_example =
    write_typed-partial nearly_full nav_att sample_nav_att (hinit 10) 2 0 2 refl refl refl refl
