-- ===== src/Db/Rows/Waveform.antt =====
-- pueo_db_insert_single_waveform of src/rawio_db.c.
pub mod Samples
use libpueorawdata.Prelude.{
  ℕ, zero, suc, ◌+◌, ◌-◌, ◌*◌, ◌%◌, ◌^◌, Bool, true, false, ltb, if◌then◌else◌, List, [], ◌∷◌, ◌++◌,
  String, map,
}
use libpueorawdata.Prelude.Int.{ℤ, pos, negsuc, ◌+ℤ◌}
use libpueorawdata.Layout.Access.{Place, member, at, to_signed}
use libpueorawdata.Db.Statement.{
  Value, timestamp, number, real, Real, of_int, quotient, product, difference, root, Statement,
  insert_into,
}
use libpueorawdata.Db.Rows.Members.{Members, inside, as_unsigned, as_int, as_int_members}

-- `<` of `int`s.
unfoldable pub less : ℤ → ℤ → Bool
less (pos a) (pos b) = ltb a b
less (pos a) (negsuc b) = false
less (negsuc a) (pos b) = true
less (negsuc a) (negsuc b) = ltb b a

-- v * v of a sample, which fits an `int`.
unfoldable pub square : ℤ → ℕ
square (pos n) = n * n
square (negsuc n) = suc n * suc n

-- The variables of the loop over the samples. The sums of 1024 samples are exact in a `double`.
pub record Stats : Type 0 where
  pub highest : ℤ
  pub lowest : ℤ
  pub sum : ℤ
  pub sum2 : ℕ

-- -INT_MAX, INT_MAX, 0 and 0.
abbrev pub no_samples : Stats
no_samples = record { highest = negsuc 2147483646; lowest = pos 2147483647; sum = pos 0; sum2 = 0 }

unfoldable pub add_sample : Stats → ℤ → Stats
unfolding less square
add_sample s v = record {
  highest = if less s.highest v then v else s.highest;
  lowest = if less v s.lowest then v else s.lowest;
  sum = s.sum +ℤ v;
  sum2 = s.sum2 + square v;
}

-- Rounds left, the round, and the variables.
unfoldable pub run_stats : (ℕ → ℤ) → ℕ → ℕ → Stats → Stats
unfolding add_sample
run_stats data_at zero i s = s
run_stats data_at (suc n) i s = run_stats data_at n (i + 1) (add_sample s (data_at i))

abbrev pub samples : ℕ
samples = 1024

-- wf->wf.data[i].
abbrev pub sample : Members → ℕ → ℤ
sample wf i = to_signed 16 (wf (member "wf" ∷ member "data" ∷ at i ∷ []))

unfoldable pub stats : Members → Stats
unfolding run_stats
stats wf = run_stats (sample wf) samples 0 no_samples

abbrev mean : Stats → Real
mean s = quotient (of_int s.sum) (of_int (pos samples))

abbrev rms : Stats → Real
rms s =
    root (
      difference (quotient (of_int (pos s.sum2)) (of_int (pos samples)))
        (product (mean s) (mean s)))

-- The seconds since the last pulse, in units of the last distance of pulses. The difference below is
-- one of `uint32_t`.
abbrev subsecond : ℕ → ℕ → ℕ → Real
subsecond event_time last_pps llast_pps =
    quotient (difference (of_int (pos event_time)) (of_int (pos last_pps)))
      (of_int (pos ((last_pps + 2 ^ 32 - llast_pps) % 2 ^ 32)))

unfoldable pub single_waveform_columns : List String
single_waveform_columns =
    "time" ∷ "run" ∷ "event" ∷ "channel" ∷ "max" ∷ "min" ∷ "rms" ∷ "subsecond" ∷ "prio_trig_type"
    ∷ "prio_topring_blast_flag" ∷ "prio_botring_blast_flag" ∷ "prio_fullpayload_blast_flag"
    ∷ "prio_frontback_blast_flag" ∷ "prio_anthro_base_flag" ∷ "prio_cal_type" ∷ "prio_signal_level"
    ∷ []

unfoldable pub single_waveform_values : Members → List Value
unfolding stats
single_waveform_values wf =
    let s = stats wf in
    timestamp (wf (member "event_second" ∷ [])) (wf (inside "readout_time" "utc_nsecs"))
    ∷ as_int wf (member "run" ∷ [])
    ∷ as_int wf (member "event" ∷ [])
    ∷ as_unsigned wf (inside "wf" "channel_id")
    ∷ number s.highest
    ∷ number s.lowest
    ∷ real (rms s)
    ∷ real (
        subsecond (wf (member "event_time" ∷ [])) (wf (member "last_pps" ∷ []))
          (wf (member "llast_pps" ∷ [])))
    ∷ map (λ name. as_unsigned wf (inside "prio" name))
        ("trig_type" ∷ "topring_blast_flag" ∷ "botring_blast_flag" ∷ "fullpayload_blast_flag"
          ∷ "frontback_blast_flag" ∷ "anthro_base_flag" ∷ "cal_type" ∷ "signal_level" ∷ [])

unfoldable pub single_waveform_row : Members → Statement
unfolding single_waveform_columns single_waveform_values
single_waveform_row wf =
    insert_into "single_waveforms" single_waveform_columns (single_waveform_values wf)
