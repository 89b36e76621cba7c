-- ===== src/Dump/Position.antt =====
-- pueo_dump_nav_att, _nav_pos, _nav_sat, _startracker and _timemark of src/rawio_dump.c.
use libpueorawdata.Prelude.{ℕ, ◌==◌, if◌then◌else◌, List, [], ◌∷◌, ◌++◌, String}
use libpueorawdata.Prelude.Int.{pos}
use libpueorawdata.Prelude.Run.{Run, done, out_of_bounds, check, ◌>>◌}
use libpueorawdata.Prelude.{leb}
use libpueorawdata.Layout.Access.{member, at, to_signed}
use libpueorawdata.Db.Statement.{half, for_each}
use libpueorawdata.Db.Rows.Members.{Members, element}
use libpueorawdata.Dump.Print.{
  decimal, real, Print, start, end, start_array, end_array, start_object, end_object, key,
  unsigned_keys, hex_keys, float_keys, time_keys, array_of, float_array,
}

-- The character of `source`.
unfoldable pub att_title : ℕ → String
att_title c =
    if c == 67
    then "nav_att_cpt7"
    else if c == 66
    then "nav_att_boreas"
    else if c == 65
    then "nav_att_abx2"
    else "nav_att_unknown"

unfoldable pub dump_nav_att : Members → List Print
unfolding att_title array_of
dump_nav_att n =
    start (att_title (n (member "source" ∷ [])))
    ∷ (time_keys n ("readout_time" ∷ "gps_time" ∷ [])
        ++ (float_keys n (
              "lat" ∷ "lon" ∷ "alt" ∷ "heading" ∷ "pitch" ∷ "roll" ∷ "heading_sigma" ∷ "pitch_sigma"
              ∷ "roll_sigma" ∷ "hdop" ∷ "vdop" ∷ [])
            ++ (unsigned_keys n ("nsats" ∷ [])
                ++ (hex_keys n ("flags" ∷ [])
                    ++ (key "temperature" (decimal (to_signed 16 (n (member "temperature" ∷ []))))
                        ∷ array_of "antenna_currents" 3
                            (λ i. decimal (to_signed 16 (n (element "antenna_currents" i))))
                        ∷ end
                        ∷ [])))))

unfoldable pub pos_title : ℕ → String
pos_title c =
    if c == 67
    then "nav_pos_cpt7"
    else if c == 66
    then "nav_pos_boreas"
    else if c == 65
    then "nav_pos_abx2"
    else if c == 84
    then "nav_pos_turf"
    else "nav_pos_unknown"

unfoldable pub dump_nav_pos : Members → List Print
unfolding pos_title array_of
dump_nav_pos n =
    start (pos_title (n (member "source" ∷ [])))
    ∷ (time_keys n ("readout_time" ∷ "gps_time" ∷ [])
        ++ (float_keys n ("lat" ∷ "lon" ∷ "alt" ∷ [])
            ++ (float_array n "x" 3
                ∷ float_array n "v" 3
                ∷ (float_keys n ("hdop" ∷ "vdop" ∷ [])
                    ++ (unsigned_keys n ("nsats" ∷ [])
                        ++ (hex_keys n ("flags" ∷ []) ++ (end ∷ [])))))))

unfoldable pub sat_title : ℕ → String
sat_title c =
    if c == 67
    then "nav_sat_cpt7"
    else if c == 66
    then "nav_sat_boreas"
    else if c == 65
    then "nav_sat_abx2"
    else if c == 84
    then "nav_sat_turf"
    else "nav_sat_unknown"

abbrev sat_member : Members → ℕ → String → ℕ
sat_member n i name = n (member "sats" ∷ at i ∷ member name ∷ [])

unfoldable pub dump_sat : Members → ℕ → List Print
dump_sat n i =
    start_object
    ∷ key "used" (decimal (pos (sat_member n i "used")))
    ∷ key "type" (decimal (pos (sat_member n i "type")))
    ∷ key "qualityInd" (decimal (pos (sat_member n i "qualityInd")))
    ∷ key "svid" (decimal (pos (sat_member n i "svid")))
    ∷ key "el" (real (half (sat_member n i "el")))
    ∷ key "az" (real (half (sat_member n i "az")))
    ∷ key "cno" (real (half (sat_member n i "cno")))
    ∷ key "prRes" (real (half (sat_member n i "prRes")))
    ∷ end_object
    ∷ []

-- The array has room for 255.
unfoldable pub dump_nav_sat : Members → Run (List Print)
unfolding sat_title dump_sat for_each
dump_nav_sat n = do
  let visible = n (member "nsats_visible" ∷ [])
  check (leb visible 255) out_of_bounds
  done (
      start (sat_title (n (member "source" ∷ [])))
      ∷ (time_keys n ("readout_time" ∷ "gps_time" ∷ [])
          ++ (unsigned_keys n ("nsats_used" ∷ "nsats_visible" ∷ [])
              ++ (start_array "sats"
                  ∷ (for_each visible 0 (λ i. dump_sat n i) ++ (end_array ∷ end ∷ []))))))

unfoldable pub dump_startracker : Members → List Print
dump_startracker t = start "startracker" ∷ (time_keys t ("time1" ∷ "time3" ∷ []) ++ (end ∷ []))

unfoldable pub dump_timemark : Members → List Print
dump_timemark t =
    start "timemark"
    ∷ (time_keys t ("readout_time" ∷ "rising" ∷ "falling" ∷ [])
        ++ (unsigned_keys t ("rise_count" ∷ "channel" ∷ [])
            ++ (hex_keys t ("flags" ∷ []) ++ (end ∷ []))))
