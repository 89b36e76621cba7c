-- ===== src/Db/Log/Failures.antt =====
-- The insertions of src/rawio_db.c into a handle whose stream cannot be opened.
use libpueorawdata.Prelude.{◌≡◌, refl, ◌∙◌, ap, true, false, ◌≢◌}
use libpueorawdata.Prelude.Run.{done, fault, null_stream, ◌>>=◌}
use libpueorawdata.Datatype.{Kind, full_waveforms, sensors_telem}
use libpueorawdata.Db.State.{Build, Db, Opening, Closing, can_open}
use libpueorawdata.Db.Rows.Members.{Members}
use libpueorawdata.Db.Insert.{is_implemented, checks_stream, insert}
use libpueorawdata.Db.Log.{IsIdle, script_for, log_call}
use libpueorawdata.Db.Log.Refines.{IsIdle-eq, after, insert-script}

pub insert_idle :
    (b : Build) (k : Kind) (o : Opening) (c : Closing) (x : Members) (h : Db)
    → IsIdle b h
    → insert k b o c x h ≡ (
        script_for o h.engine x k >>= λ written.
        done (after b h.target h.flags h.engine (log_call c h.engine written h.sent)))
insert_idle b k o c x h v =
    ap (λ h. insert k b o c x h) (IsIdle-eq b h v)
    ∙ insert-script b h.target h.flags k o c h.engine x h.sent v.supported

unchecked : (k : Kind) → k ≢ sensors_telem → checks_stream k ≡ false
unchecked sensors_telem other = absurd (other refl)
unchecked full_waveforms other = refl
unchecked _ other = refl

pub insert-null_stream :
    (b : Build) (k : Kind) (o : Opening) (c : Closing) (x : Members) (h : Db)
    → IsIdle b h
    → is_implemented k ≡ true
    → k ≢ sensors_telem
    → can_open o h.engine ≡ false
    → insert k b o c x h ≡ fault null_stream
unfolding script_for
insert-null_stream b k o c x h v full other shut =
    insert_idle b k o c x h v ∙ rw (script_for, full, shut, unchecked k other) refl
