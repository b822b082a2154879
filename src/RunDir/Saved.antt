-- ===== src/RunDir/Saved.antt =====
-- Session::write leaves the old session or the whole new one.
use tool_debug.Common.{
  Bytes, codes, equal, [], ◌∷◌, ◌++◌, append-nil, ◌≡◌, refl, sym, ap, ◌∙◌, ◌⊎◌, inl, inr, false,
  some, IsLine, Bool-cases, pos,
}
use tool_debug.Common.Outcome.{Outcome, ok, throw}
use tool_debug.Json.Builder.{JsonObject, dump, dump_list}
use tool_debug.Json.Setters.{set-IsSolid, set_int-IsSolid, dump-IsLine}
use tool_debug.Json.Parser.{Dict, find, assign}
use tool_debug.Session.{Session, json}
use tool_debug.RunDir.{
  World, Host, WriteEnd, written, write_failed, close_failed, content_of, read_file_content,
  trim_end, first_line,
}
use tool_debug.RunDir.Cleanup.{find-unlink}
use tool_debug.RunDir.Publish.{
  IsTrimmed, find-assign_same, find-assign_other, first_line-line, trim_end-blanks, equal-append,
}
use tool_debug.RunDir.Tools.{move, holding, published, write_session}

abbrev pub temp_file : Bytes → Bytes
temp_file dir = dir ++ codes "/session.json.tmp"

abbrev pub session_file : Bytes → Bytes
session_file dir = dir ++ codes "/session.json"

temp_file-session_file : (dir : Bytes) → equal (temp_file dir) (session_file dir) ≡ false
unfolding equal
temp_file-session_file dir = equal-append dir (codes "/session.json.tmp") (codes "/session.json")

dump-IsTrimmed : (o : JsonObject) → IsTrimmed (dump o)
unfolding dump
dump-IsTrimmed o = inr (b'{' ∷ dump_list o, b'}', refl, refl)

json-IsTrimmed : (s : Session) → IsTrimmed (json s)
unfolding json
json-IsTrimmed s = dump-IsTrimmed _

json-IsLine : (s : Session) → IsLine (json s)
unfolding json
json-IsLine s = dump-IsLine _ (
    set-IsSolid _ _ _ (
      set-IsSolid _ _ _ (
        set-IsSolid _ _ _ (
          set-IsSolid _ _ _ (
            set-IsSolid _ _ _ (
              set-IsSolid _ _ _ (
                set-IsSolid _ _ _ (
                  set-IsSolid _ _ _ (
                    set-IsSolid _ _ _
                      (set_int-IsSolid [] (codes "schema_version") (pos 1) tt))))))))))

read-json : (s : Session) → trim_end (first_line (json s ++ b'\n' ∷ [])) ≡ json s
read-json s =
    ap trim_end (first_line-line (json s) [] (json-IsLine s) ∙ sym (append-nil (json s)))
    ∙ trim_end-blanks (json s) [] (json-IsTrimmed s) tt

-- What session.json holds after a rename that succeeds.
find-move :
    (dir content : Bytes) (files : Dict Bytes)
    → find (session_file dir) (
        move
          (temp_file dir)
          (session_file dir)
          (some content)
          (assign (temp_file dir) content files))
      ≡ some content
find-move dir content files =
    find-unlink (session_file dir) (temp_file dir)
      (assign (session_file dir) content (assign (temp_file dir) content files))
    ∙ rw (temp_file-session_file dir)
        (find-assign_same (session_file dir) content (assign (temp_file dir) content files))

-- What a reader sees, by whether the file opens and the rename succeeds.
abbrev pub Saved : Session → Bytes → World → Outcome {0} Unit × World → Type 0
Saved s dir w (outcome, w') =
    ((outcome ≡ ok tt) × (read_file_content w' (session_file dir) ≡ json s))
    ⊎ (((message : Bytes) × (outcome ≡ throw message))
        × (find (session_file dir) w'.files ≡ find (session_file dir) w.files))

-- What goes into the temporary file is not in session.json.
find-holding :
    (dir content : Bytes) (w : World)
    → find (session_file dir) (holding (temp_file dir) content w).files
      ≡ find (session_file dir) w.files
find-holding dir content w =
    find-assign_other (temp_file dir) (session_file dir) content w.files
      (temp_file-session_file dir)

published-Saved :
    (host : Host) (s : Session) (dir : Bytes) (end : WriteEnd) (w : World)
    → Saved s dir w (published host (temp_file dir) (session_file dir) (json s ++ b'\n' ∷ []) end w)
unfolding read_file_content
published-Saved host s dir (write_failed n) w =
    inr ((codes "Cannot write session metadata", refl), find-holding dir _ w)
published-Saved host s dir (close_failed n) w =
    inr ((codes "Cannot publish session metadata", refl), find-holding dir _ w)
published-Saved host s dir written w =
    let content = json s ++ b'\n' ∷ [] in
    elim (Bool-cases (host.can_rename (temp_file dir) (session_file dir))) [
      | inl renamed ↦ rw renamed (
          inl (
            refl,
            ap
                  (λ o. trim_end (
                    first_line (
                      content_of (
                        find (session_file dir) (
                          move (temp_file dir) (session_file dir) o
                            (assign (temp_file dir) content w.files))))))
                  (find-assign_same (temp_file dir) content w.files)
                ∙ ap (λ o. trim_end (first_line (content_of o))) (find-move dir content w.files)
                ∙ read-json s,
          ))
      | inr kept ↦
          rw kept
            (inr ((codes "Cannot publish session metadata", refl), find-holding dir content w))
    ]

-- After Session::write a reader of session.json finds the whole text of the session, and if the write
-- threw, because the temporary file did not open, took only a part of the text or could not be closed
-- or renamed, session.json is as it was before.
pub write_session-Saved :
    (host : Host) (s : Session) (dir : Bytes) (w : World)
    → Saved s dir w (write_session host s dir w)
unfolding write_session
write_session-Saved host s dir w = elim (Bool-cases (host.can_write (temp_file dir))) [
  | inl opens ↦ rw opens (published-Saved host s dir (host.write_end (temp_file dir)) w)
  | inr closed ↦ rw closed (inr ((codes "Cannot write session metadata", refl), refl))
]
