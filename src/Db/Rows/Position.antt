-- ===== src/Db/Rows/Position.antt =====
-- Navigation, timing and prioritizer status: pueo_db_insert_nav_att, _timemark, _startracker and
-- _prio_status of src/rawio_db.c, and _nav_pos.
use libpueorawdata.Prelude.{ℕ, zero, suc, List, [], ◌∷◌, ◌++◌, String}
use libpueorawdata.Prelude.Int.{pos}
use libpueorawdata.Layout.Access.{Place, member, to_signed}
use libpueorawdata.Db.Statement.{
  Value, seconds, number, real, character, low_character, low_int, Real, single, low_word,
  Statement, insert_into, for_each,
}
use libpueorawdata.Db.Rows.Members.{
  Members, element, inside, as_unsigned, as_float, time, float_members,
}

unfoldable pub nav_att_columns : List String
nav_att_columns =
    "readout_time" ∷ "gps_time" ∷ "lat" ∷ "lon" ∷ "alt" ∷ "heading" ∷ "heading_sigma" ∷ "pitch"
    ∷ "pitch_sigma" ∷ "roll" ∷ "roll_sigma" ∷ "hdop" ∷ "vdop" ∷ "source" ∷ "nsats" ∷ "flags"
    ∷ "temperature" ∷ "antenna_current_0" ∷ "antenna_current_1" ∷ "antenna_current_2" ∷ []

-- The last two are both the second antenna's.
unfoldable pub nav_att_values : Members → List Value
nav_att_values att =
    time att "readout_time"
    ∷ time att "gps_time"
    ∷ (float_members att (
          "lat" ∷ "lon" ∷ "alt" ∷ "heading" ∷ "heading_sigma" ∷ "pitch" ∷ "pitch_sigma" ∷ "roll"
          ∷ "roll_sigma" ∷ "hdop" ∷ "vdop" ∷ [])
        ++ (character (att (member "source" ∷ []))
            ∷ as_unsigned att (member "nsats" ∷ [])
            ∷ as_unsigned att (member "flags" ∷ [])
            ∷ number (to_signed 16 (att (member "temperature" ∷ [])))
            ∷ as_unsigned att (element "antenna_currents" 0)
            ∷ as_unsigned att (element "antenna_currents" 1)
            ∷ as_unsigned att (element "antenna_currents" 1)
            ∷ []))

unfoldable pub nav_att_row : Members → Statement
unfolding nav_att_columns nav_att_values
nav_att_row att = insert_into "nav_atts" nav_att_columns (nav_att_values att)

-- TO_TIMESTAMP(%lu) of the seconds, and the nanoseconds.
abbrev whole_seconds : Members → String → List Value
whole_seconds x name =
    seconds (pos (x (inside name "utc_secs"))) ∷ as_unsigned x (inside name "utc_nsecs") ∷ []

unfoldable pub timemark_row : Members → Statement
timemark_row t =
    insert_into "timemarks"
      ("readout_time" ∷ "readout_time_ns" ∷ "risetime" ∷ "risetime_ns" ∷ "falltime" ∷ "falltime_ns"
        ∷ "rise_count" ∷ "flags" ∷ "channel" ∷ [])
      (whole_seconds t "readout_time"
        ++ (whole_seconds t "rising"
            ++ (whole_seconds t "falling"
                ++ (as_unsigned t (member "rise_count" ∷ [])
                    ∷ as_unsigned t (member "flags" ∷ [])
                    ∷ as_unsigned t (member "channel" ∷ [])
                    ∷ []))))

unfoldable pub startracker_row : Members → Statement
startracker_row st =
    insert_into "startrackers"
      ("st1_timestamp_s" ∷ "st1_timestamp_ns" ∷ "st3_timestamp_s" ∷ "st3_timestamp_ns" ∷ [])
      (whole_seconds st "time1" ++ whole_seconds st "time3")

unfoldable pub prio_status_columns : List String
prio_status_columns =
    "start_time" ∷ "end_time" ∷ "delay0_frac" ∷ "delay1_frac" ∷ "delay2_frac" ∷ "delay3_frac"
    ∷ "delay4_frac" ∷ "delay5_frac" ∷ "S0_frac" ∷ "S1_frac" ∷ "S2_frac" ∷ "S3_frac"
    ∷ "topblast_frac" ∷ "botblast_frac" ∷ "fullblast_frac" ∷ "fbblast_frac" ∷ "base0_frac"
    ∷ "base1_frac" ∷ "base2_frac" ∷ "base3_frac" ∷ "base4_frac" ∷ "base5_frac" ∷ "nevents"
    ∷ "nsoftevents" ∷ "starlink_partition_free_GB" ∷ []

-- The first `n` elements of an array of floats.
abbrev floats : Members → String → ℕ → List Value
floats x name n = for_each n 0 (λ i. as_float x (element name i) ∷ [])

unfoldable pub prio_status_row : Members → Statement
unfolding prio_status_columns for_each
prio_status_row st = insert_into "prio_statuss" prio_status_columns (
    time st "start_time"
    ∷ time st "end_time"
    ∷ (floats st "delay_frac" 6
        ++ (floats st "S_frac" 4
            ++ (floats st "blast_frac" 4
                ++ (floats st "anthro_frac" 6
                    ++ (as_unsigned st (member "total_events" ∷ [])
                        ∷ as_unsigned st (member "total_force" ∷ [])
                        ∷ as_float st (member "starlink_partition_free_GB" ∷ [])
                        ∷ []))))))

unfoldable pub nav_pos_columns : List String
nav_pos_columns =
    "readout_time" ∷ "gps_time" ∷ "lat" ∷ "lon" ∷ "alt" ∷ "hdop" ∷ "vdop" ∷ "source" ∷ "nsats"
    ∷ "flags" ∷ "x" ∷ "y" ∷ "z" ∷ "vx" ∷ "vy" ∷ "vz" ∷ []

-- An argument of fprintf, an `int` or a `double`, and a conversion: %f, '%c', %d.
pub data Arg : Type 0 where
  int : ℕ → Arg
  double : Real → Arg

pub data Conversion : Type 0 where
  percent_f percent_c percent_d : Conversion

-- Where the caller puts the arguments when n floating-point registers and no general one are left:
-- into those registers, and onto the stack.
unfoldable pub place_args : ℕ → List Arg → List Real × List Arg
place_args n [] = ([], [])
place_args zero (double r ∷ as') = let (fs, stack) = place_args zero as' in (fs, double r ∷ stack)
place_args (suc n) (double r ∷ as') = let (fs, stack) = place_args n as' in (r ∷ fs, stack)
place_args n (int i ∷ as') = let (fs, stack) = place_args n as' in (fs, int i ∷ stack)

-- What a conversion makes of an argument on the stack.
unfoldable pub from_stack : Conversion → Arg → Value
from_stack percent_f (int i) = real (low_word i)
from_stack percent_f (double r) = real r
from_stack percent_c (int i) = character i
from_stack percent_c (double r) = low_character r
from_stack percent_d (int i) = number (pos i)
from_stack percent_d (double r) = low_int r

-- What fprintf finds: %f takes the next floating-point register, and when there is none the next word
-- of the stack, as the others do. Nothing is printed for a missing argument.
unfoldable pub take_args : List Conversion → List Real → List Arg → List Value
unfolding from_stack
take_args [] fs stack = []
take_args (percent_f ∷ cs) (r ∷ fs) stack = real r ∷ take_args cs fs stack
take_args (c ∷ cs) fs (a ∷ stack) = from_stack c a ∷ take_args cs fs stack
take_args (c ∷ cs) fs [] = []

-- Eleven %f, '%c', %d and %d, behind the two times.
unfoldable pub nav_pos_conversions : List Conversion
nav_pos_conversions =
    percent_f ∷ percent_f ∷ percent_f ∷ percent_f ∷ percent_f ∷ percent_f ∷ percent_f ∷ percent_f
    ∷ percent_f ∷ percent_f ∷ percent_f ∷ percent_c ∷ percent_d ∷ percent_d ∷ []

-- lat, lon, alt, hdop and vdop; source, nsats and flags; x and v.
unfoldable pub nav_pos_arguments : Members → List Arg
nav_pos_arguments p =
    float (member "lat" ∷ [])
    ∷ float (member "lon" ∷ [])
    ∷ float (member "alt" ∷ [])
    ∷ float (member "hdop" ∷ [])
    ∷ float (member "vdop" ∷ [])
    ∷ int (p (member "source" ∷ []))
    ∷ int (p (member "nsats" ∷ []))
    ∷ int (p (member "flags" ∷ []))
    ∷ float (element "x" 0)
    ∷ float (element "x" 1)
    ∷ float (element "x" 2)
    ∷ float (element "v" 0)
    ∷ float (element "v" 1)
    ∷ float (element "v" 2)
    ∷ []
  where
    float : Place → Arg
    float m = double (single (p m))

-- The numbers of the two times are in the four general registers that the file and the format leave, as
-- their conversions want them. All else is as the x86-64 ABI passes it, since the conversions are of
-- other types than the arguments.
unfoldable pub nav_pos_row : Members → Statement
unfolding nav_pos_columns nav_pos_conversions nav_pos_arguments place_args take_args
nav_pos_row p =
    let (fs, stack) = place_args 8 (nav_pos_arguments p) in
    insert_into "nav_poss" nav_pos_columns
      (time p "readout_time" ∷ time p "gps_time" ∷ take_args nav_pos_conversions fs stack)
