-- ===== src/Dump/Ends.antt =====
-- When the parts of the dumps of src/rawio_dump.c come back.
use libpueorawdata.Prelude.{
  ℕ, zero, suc, ◌+◌, ◌<◌, ◌≤◌, ◌≡◌, refl, ◌∙◌, ap, Bool, true, List, [], ◌∷◌, ◌++◌, Bool-cases, inl,
  inr, ltb, leb, le→leb, lt→ltb, ◌==◌, arith, String,
}
use libpueorawdata.Prelude.Run.{Run, Fault, out_of_bounds, assert_failed, done, check, ◌>>=◌}
use libpueorawdata.Geometry.{nchan, max_buffer_length}
use libpueorawdata.Formats.Base.{
  max_file_download_length, max_sensors_per_packet_telem, max_sensors_per_packet_disk,
}
use libpueorawdata.Layout.Access.{Place, member, at}
use libpueorawdata.Sensors.{max_sensors_compat, sensor_id_get_compat}
use libpueorawdata.Sensors.Row.{Sensor}
use libpueorawdata.Datatype.{
  Kind, full_waveforms, single_waveform, nav_sat, sensors_telem, sensors_disk, cmd_echo, logs,
  file_download,
}
use libpueorawdata.Db.Rows.Members.{Members}
use libpueorawdata.Db.Rows.Telemetry.{reading, text_at}
use libpueorawdata.Db.Log.Returns.{text_at-returns}
use libpueorawdata.Dump.Print.{Print, Printed, counted_array, for_each_run}
use libpueorawdata.Dump.Event.{sample_value, dump_waveform}
use libpueorawdata.Dump.Readings.{
  decoded_keys, dump_sensor_telem, dump_sensor_disk, dump_sensors_telem, dump_sensors_disk,
}
use libpueorawdata.Dump.Status.{hex_byte, dump_logs, dump_contents}

-- The readings that the packet counts are in its array, and their ids in the table of its magic number.
abbrev HasIds : Members → Type 0
HasIds x =
    (x (member "num_packets" ∷ []) ≤ 256)
    × ((i : ℕ)
        → i < x (member "num_packets" ∷ [])
        → x (reading i "sensor_id") < max_sensors_compat (x (member "sensor_id_magic" ∷ [])))

-- What a packet must hold so that it can be printed.
abbrev pub IsDumpable : Kind → Members → Type 0
IsDumpable full_waveforms x =
    (i : ℕ) → i < nchan → x (member "wfs" ∷ at i ∷ member "length" ∷ []) ≤ max_buffer_length
IsDumpable single_waveform x = x (member "wf" ∷ member "length" ∷ []) ≤ max_buffer_length
IsDumpable nav_sat x = x (member "nsats_visible" ∷ []) ≤ 255
IsDumpable sensors_telem x = HasIds x
IsDumpable sensors_disk x = HasIds x
IsDumpable cmd_echo x = x (member "len_m1" ∷ []) < 256
IsDumpable logs x =
    x (member "daemon_len" ∷ []) + x (member "grep_len" ∷ []) + x (member "msg_len" ∷ []) ≤ 2048
IsDumpable file_download x = x (member "len" ∷ []) ≤ max_file_download_length
IsDumpable k x = Unit {0}

-- The call comes back.
abbrev pub Ends {ℓ} : {A : Type ℓ} → Run A → Type ℓ
Ends {A} m = (a : A) × (m ≡ done a)

pub bind-Ends {ℓ κ} :
    {A : Type ℓ} {B : Type κ} (m : Run A) (f : A → Run B)
    → Ends m
    → ((a : A) → Ends (f a))
    → Ends (m >>= f)
bind-Ends m f (a, e) g = let (b, d) = g a in (b, ap (λ m. m >>= f) e ∙ d)

pub check-Ends : (b : Bool) (e : Fault) → b ≡ true → Ends (check b e)
check-Ends b e h = (tt, rw h)

pub for_each_run-Ends :
    (n k : ℕ) (body : ℕ → Run (List Print))
    → ((i : ℕ) → i < k + n → Ends (body i))
    → Ends (for_each_run n k body)
unfolding for_each_run
for_each_run-Ends zero k body h = ([], refl)
for_each_run-Ends (suc n) k body h = bind-Ends (body k) _ (h k (omega arith)) (λ here.
    bind-Ends (for_each_run n (k + 1) body) _
      (for_each_run-Ends n (k + 1) body (λ i l. h i (omega (arith, l))))
      (λ rest. (here ++ rest, refl)))

pub counted_array-Ends :
    (name : String) (limit n : ℕ) (f : ℕ → Printed)
    → n ≤ limit
    → Ends (counted_array name limit n f)
unfolding counted_array
counted_array-Ends name limit n f h =
    bind-Ends (check (leb n limit) out_of_bounds) _ (check-Ends _ _ (le→leb n limit h))
      (λ _. (_, refl))

pub waveform-Ends :
    (x : Members) (wf : Place)
    → x (wf ++ member "length" ∷ []) ≤ max_buffer_length
    → Ends (dump_waveform x wf)
unfolding dump_waveform
waveform-Ends x wf h =
    let n = x (wf ++ member "length" ∷ []) in
    bind-Ends (counted_array "data" max_buffer_length n (sample_value x wf)) _
      (counted_array-Ends "data" max_buffer_length n (sample_value x wf) h) (λ _. (_, refl))

column-Ends :
    {A : Type 0} (column : Sensor → A) (id magic : ℕ)
    → id < max_sensors_compat magic
    → Ends (sensor_id_get_compat column id magic)
unfolding sensor_id_get_compat
column-Ends column id magic h =
    bind-Ends (check (ltb id (max_sensors_compat magic)) assert_failed) _
      (check-Ends _ _ (lt→ltb id (max_sensors_compat magic) h)) (λ _. (_, refl))

decoded_keys-Ends :
    (x : Members) (i : ℕ)
    → x (reading i "sensor_id") < max_sensors_compat (x (member "sensor_id_magic" ∷ []))
    → Ends (decoded_keys x i)
unfolding decoded_keys
decoded_keys-Ends x i h =
    let id = x (reading i "sensor_id") in
    let magic = x (member "sensor_id_magic" ∷ []) in
    bind-Ends (sensor_id_get_compat (λ s. s.subsystem) id magic) _
      (column-Ends (λ s. s.subsystem) id magic h)
      (λ _.
        bind-Ends (sensor_id_get_compat (λ s. s.name) id magic) _
          (column-Ends (λ s. s.name) id magic h)
          (λ _.
            bind-Ends (sensor_id_get_compat (λ s. s.type_tag) id magic) _
              (column-Ends (λ s. s.type_tag) id magic h)
              (λ _.
                bind-Ends (sensor_id_get_compat (λ s. s.kind) id magic) _
                  (column-Ends (λ s. s.kind) id magic h) (λ _. (_, refl)))))

pub sensors_telem-Ends : (x : Members) → HasIds x → Ends (dump_sensors_telem x)
unfolding dump_sensors_telem dump_sensor_telem
sensors_telem-Ends x (size, ids) =
    let n = x (member "num_packets" ∷ []) in
    bind-Ends (for_each_run n 0 (λ i. dump_sensor_telem x i)) _
      (for_each_run-Ends n 0 (λ i. dump_sensor_telem x i)
        (λ i l.
          bind-Ends (check (ltb i max_sensors_per_packet_telem) out_of_bounds) _
            (check-Ends _ _ (lt→ltb i 256 (omega (arith, l, size))))
            (λ _.
              bind-Ends (decoded_keys x i) _ (decoded_keys-Ends x i (ids i (omega (arith, l))))
                (λ _. (_, refl)))))
      (λ _. (_, refl))

pub sensors_disk-Ends : (x : Members) → HasIds x → Ends (dump_sensors_disk x)
unfolding dump_sensors_disk dump_sensor_disk
sensors_disk-Ends x (size, ids) =
    let n = x (member "num_packets" ∷ []) in
    bind-Ends (for_each_run n 0 (λ i. dump_sensor_disk x i)) _
      (for_each_run-Ends n 0 (λ i. dump_sensor_disk x i)
        (λ i l.
          bind-Ends (check (ltb i max_sensors_per_packet_disk) out_of_bounds) _
            (check-Ends _ _ (lt→ltb i 256 (omega (arith, l, size))))
            (λ _.
              bind-Ends (decoded_keys x i) _ (decoded_keys-Ends x i (ids i (omega (arith, l))))
                (λ _. (_, refl)))))
      (λ _. (_, refl))

pub logs-Ends : (x : Members) → IsDumpable logs x → Ends (dump_logs x)
unfolding dump_logs
logs-Ends x h =
    let daemon_len = x (member "daemon_len" ∷ []) in
    let grep_len = x (member "grep_len" ∷ []) in
    let msg_len = x (member "msg_len" ∷ []) in
    bind-Ends (text_at x "buf" 2048 daemon_len 0) _
      (text_at-returns x "buf" 2048 daemon_len 0 (omega arith))
      (λ _.
        bind-Ends (text_at x "buf" 2048 grep_len daemon_len) _
          (text_at-returns x "buf" 2048 grep_len daemon_len (omega arith))
          (λ _.
            bind-Ends (text_at x "buf" 2048 msg_len (daemon_len + grep_len)) _
              (text_at-returns x "buf" 2048 msg_len (daemon_len + grep_len) (omega arith))
              (λ _. (_, refl))))

pub contents-Ends : (x : Members) → IsDumpable file_download x → Ends (dump_contents x)
unfolding dump_contents
contents-Ends x h =
    let len = x (member "len" ∷ []) in
    elim (Bool-cases (x (member "binary" ∷ []) == 0)) [
      | inl as_text ↦
          rw (dump_contents, as_text)
            (bind-Ends (text_at x "bytes" max_file_download_length len 0) _
              (text_at-returns x "bytes" max_file_download_length len 0 (omega arith))
              (λ _. (_, refl)))
      | inr binary ↦
          rw (dump_contents, binary)
            (counted_array-Ends "bytes" max_file_download_length len (hex_byte x "bytes" 1) h)
    ]
