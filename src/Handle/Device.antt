-- ===== src/Handle/Device.antt =====
-- Handles over a file descriptor and over zlib: fd_writebytes, fd_readbytes, gz_writebytes and
-- gz_readbytes of src/rawio.c.
use libpueorawdata.Prelude.{none, some}
use libpueorawdata.Prelude.Int.{ℤ}
use libpueorawdata.Prelude.Memory.{Bytes}
use libpueorawdata.Handle.{Handle, Ops}
use libpueorawdata.Prelude.{ℕ}

-- write and read of the system on a descriptor in the state D, or gzwrite and gzread on a gzFile:
-- their results, -1 for a failure, and the bytes that were read.
pub record Device (D : Type 0) : Type 0 where
  pub write : Bytes → D → ℤ × D
  pub read : ℕ → D → ℤ × Bytes × D

unfoldable pub fd_write : {D : Type 0} → Device D → Bytes → Handle D → ℤ × Handle D
fd_write dev bs h = let (r, d) = dev.write bs h.aux in (r, record h { aux = d })

unfoldable pub fd_read : {D : Type 0} → Device D → ℕ → Handle D → ℤ × Bytes × Handle D
fd_read dev n h = let (r, bs, d) = dev.read n h.aux in (r, bs, record h { aux = d })

unfoldable pub gz_write : {D : Type 0} → Device D → Bytes → Handle D → ℤ × Handle D
gz_write gz bs h = let (r, d) = gz.write bs h.aux in (r, record h { aux = d })

unfoldable pub gz_read : {D : Type 0} → Device D → ℕ → Handle D → ℤ × Bytes × Handle D
gz_read gz n h = let (r, bs, d) = gz.read n h.aux in (r, bs, record h { aux = d })

-- The function pointers that pueo_handle_init_fd_with_desc sets, and those of
-- pueo_handle_init_file for a name that ends in .gz or .zst.
unfoldable pub fd_ops : {D : Type 0} → Device D → Ops D
unfolding fd_write fd_read
fd_ops dev = record {
  write_bytes = some (fd_write dev);
  read_bytes = some (fd_read dev);
  done_write_packet = none;
}

unfoldable pub gz_ops : {D : Type 0} → Device D → Ops D
unfolding gz_write gz_read
gz_ops gz = record {
  write_bytes = some (gz_write gz);
  read_bytes = some (gz_read gz);
  done_write_packet = none;
}
