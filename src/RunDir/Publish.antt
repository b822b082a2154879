-- ===== src/RunDir/Publish.antt =====
-- What a server publishes in its run directory is what a client reads there.
use tool_debug.Common.{
  ◌<◌, ℕ, suc, Bytes, codes, equal, equal_refl, [], ◌∷◌, ◌++◌, reverse, ◌≡◌, refl, sym, ap, ◌∙◌,
  subst, ◌⊎◌, inl, inr, ℤ, pos, negsuc, IsInt32, IsInt32-IsInt64, ltb_ℤ, true, false, some,
  if◌then◌else◌, ◌^◌, IsLine, All, arith,
}
use mathlib.Core.List.{reverse-append, reverse-reverse}
use tool_debug.Common.Decimal.{to_string, strtoll, strtoll-to_string_line}
use tool_debug.Json.Parser.{Dict, find, assign}
use tool_debug.Json.Lookup.{find-assign}
use tool_debug.RunDir.{
  World, Host, RunDir, pid_path, source_info_path, first_line, is_trailing, drop_blanks, trim_end,
  content_of, read_file_content, from_dir, write_file, write_pid, write_source_info, clamp_int,
  read_pid, is_server_alive,
}

-- run_server and run_proxy publish the process id and the source.
abbrev pub publish : Host → RunDir → ℤ → World → World
publish host rd pid w = (write_source_info host rd (write_pid host rd pid w).1).1

-- The files of the two tools.
abbrev pub IsTool : RunDir → Type 0
IsTool rd = (rd.file_prefix ≡ codes "wave_server") ⊎ (rd.file_prefix ≡ codes "vsignal_server")

-- The bytes that read_file_content takes off the end.
abbrev pub AreBlanks : Bytes → Type 0
AreBlanks = All (λ c. is_trailing c ≡ true)

-- The text is empty or ends in a byte that stays.
abbrev pub IsTrimmed : Bytes → Type 0
IsTrimmed s =
    (s ≡ []) ⊎ ((front : Bytes) × (c : ℕ) × (s ≡ front ++ c ∷ []) × (is_trailing c ≡ false))

drop_blanks-blanks : (b t : Bytes) → AreBlanks b → drop_blanks (b ++ t) ≡ drop_blanks t
unfolding drop_blanks
drop_blanks-blanks [] t h = refl
drop_blanks-blanks (c ∷ b) t h = rw h.0 (drop_blanks-blanks b t h.1)

AreBlanks-append : (a b : Bytes) → AreBlanks a → AreBlanks b → AreBlanks (a ++ b)
AreBlanks-append [] b h k = k
AreBlanks-append (c ∷ a) b h k = (h.0, AreBlanks-append a b h.1 k)

reverse-AreBlanks : (s : Bytes) → AreBlanks s → AreBlanks (reverse s)
reverse-AreBlanks [] h = tt
reverse-AreBlanks (c ∷ s) h =
    subst AreBlanks (sym (reverse-append (c ∷ []) s))
      (AreBlanks-append (reverse s) (c ∷ []) (reverse-AreBlanks s h.1) (h.0, tt))

drop_blanks-reverse : (s : Bytes) → IsTrimmed s → drop_blanks (reverse s) ≡ reverse s
unfolding drop_blanks
drop_blanks-reverse s (inl e) = rw e refl
drop_blanks-reverse s (inr (front, c, e, kept)) =
    let turned : reverse s ≡ c ∷ reverse front = ap reverse e ∙ reverse-append front (c ∷ []) in
    rw turned (rw kept refl)

pub trim_end-blanks :
    (s blanks : Bytes) → IsTrimmed s → AreBlanks blanks → trim_end (s ++ blanks) ≡ s
unfolding trim_end
trim_end-blanks s blanks h k =
    ap (λ r. reverse (drop_blanks r)) (reverse-append s blanks)
    ∙ ap reverse (
        drop_blanks-blanks (reverse blanks) (reverse s) (reverse-AreBlanks blanks k)
        ∙ drop_blanks-reverse s h)
    ∙ reverse-reverse s

pub first_line-line : (s rest : Bytes) → IsLine s → first_line (s ++ (b'\n' ∷ rest)) ≡ s
unfolding first_line
first_line-line [] rest h = refl
first_line-line (c ∷ s) rest h = rw h.0 (ap (◌∷◌ c) (first_line-line s rest h.1))

pub equal-append : (d a b : Bytes) → equal (d ++ a) (d ++ b) ≡ equal a b
unfolding equal
equal-append [] a b = refl
equal-append (c ∷ d) a b = ground (arith, equal-append d a b)

source_info_path-pid_path :
    (rd : RunDir) → IsTool rd → equal (source_info_path rd) (pid_path rd) ≡ false
unfolding source_info_path pid_path equal
source_info_path-pid_path rd h = equal-append rd.run_dir _ _ ∙ distinct h
  where
    distinct :
        IsTool rd
        → equal (codes "/source_info") (codes "/" ++ (rd.file_prefix ++ codes ".pid")) ≡ false
    distinct (inl e) = rw e refl
    distinct (inr e) = rw e refl

clamp_int-eq_self : (i : ℤ) → IsInt32 i → clamp_int i ≡ i
clamp_int-eq_self (pos n) h = ground arith
clamp_int-eq_self (negsuc n) h = ground arith

pub find-assign_same : (k v : Bytes) (m : Dict Bytes) → find k (assign k v m) ≡ some v
find-assign_same k v m = find-assign k k v m ∙ rw (equal_refl k) refl

pub find-assign_other :
    (k j v : Bytes) (m : Dict Bytes) → equal k j ≡ false → find j (assign k v m) ≡ find j m
find-assign_other k j v m h = find-assign k j v m ∙ rw h refl

write_file-assign :
    (host : Host) (path content : Bytes) (w : World)
    → host.can_write path ≡ true
    → (write_file host path content w).1.files ≡ assign path content w.files
unfolding write_file
write_file-assign host path content w h = rw h refl

publish-assign :
    (host : Host) (rd : RunDir) (pid : ℤ) (w : World)
    → host.can_write (pid_path rd) ≡ true
    → host.can_write (source_info_path rd) ≡ true
    → (publish host rd pid w).files
      ≡ assign
          (source_info_path rd)
          (rd.source ++ b'\n' ∷ [])
          (assign (pid_path rd) (to_string pid ++ b'\n' ∷ []) w.files)
unfolding write_pid write_source_info
publish-assign host rd pid w pid_opens info_opens =
    write_file-assign host (source_info_path rd) _ _ info_opens
    ∙ ap (assign (source_info_path rd) (rd.source ++ b'\n' ∷ []))
        (write_file-assign host (pid_path rd) _ w pid_opens)

read_pid-publish :
    (host : Host) (rd : RunDir) (pid : ℤ) (w : World)
    → host.can_write (pid_path rd) ≡ true
    → host.can_write (source_info_path rd) ≡ true
    → IsTool rd
    → IsInt32 pid
    → read_pid rd (publish host rd pid w) ≡ pid
unfolding read_pid
read_pid-publish host rd pid w pid_opens info_opens tool in_range =
    ap (λ files. clamp_int (strtoll (content_of (find (pid_path rd) files))))
      (publish-assign host rd pid w pid_opens info_opens)
    ∙ ap (λ o. clamp_int (strtoll (content_of o)))
        (find-assign_other (source_info_path rd) (pid_path rd) _ _
            (source_info_path-pid_path rd tool)
          ∙ find-assign_same (pid_path rd) _ w.files)
    ∙ ap clamp_int (strtoll-to_string_line pid (IsInt32-IsInt64 pid in_range))
    ∙ clamp_int-eq_self pid in_range

read_file_content-publish :
    (host : Host) (rd : RunDir) (pid : ℤ) (w : World) (s blanks : Bytes)
    → host.can_write (pid_path rd) ≡ true
    → host.can_write (source_info_path rd) ≡ true
    → rd.source ≡ s ++ blanks
    → IsTrimmed s
    → AreBlanks blanks
    → IsLine rd.source
    → read_file_content (publish host rd pid w) (source_info_path rd) ≡ s
unfolding read_file_content
read_file_content-publish host rd pid w s blanks pid_opens info_opens e trimmed k line =
    ap (λ files. trim_end (first_line (content_of (find (source_info_path rd) files))))
      (publish-assign host rd pid w pid_opens info_opens)
    ∙ ap (λ o. trim_end (first_line (content_of o))) (find-assign_same (source_info_path rd) _ _)
    ∙ ap trim_end (first_line-line rd.source [] line ∙ e)
    ∙ trim_end-blanks s blanks trimmed k

-- Once a server has published its process id and its source, from_dir reads the source, without the
-- blanks at its end, and the process id, and takes the server for alive just when the system does,
-- where the two files open, the source is one line and the id is a positive int.
pub from_dir-publish :
    (host : Host) (rd : RunDir) (pid : ℕ) (w : World) (s blanks : Bytes)
    → host.can_write (pid_path rd) ≡ true
    → host.can_write (source_info_path rd) ≡ true
    → IsTool rd
    → suc pid < 2 ^ 31
    → rd.source ≡ s ++ blanks
    → IsTrimmed s
    → AreBlanks blanks
    → IsLine rd.source
    → (from_dir (publish host rd (pos (suc pid)) w) rd.run_dir rd.sub_dir_name rd.file_prefix
        ≡ record rd { source = s })
      × (read_pid rd (publish host rd (pos (suc pid)) w) ≡ pos (suc pid))
      × (is_server_alive host rd (publish host rd (pos (suc pid)) w) ≡ host.alive (pos (suc pid)))
unfolding from_dir is_server_alive source_info_path
from_dir-publish host rd pid w s blanks pid_opens info_opens tool in_range e trimmed k line =
    let id = read_pid-publish host rd (pos (suc pid)) w pid_opens info_opens tool in_range in
    let positive : ltb_ℤ (pos 0) (pos (suc pid)) ≡ true = ground arith in
    (
      ap (λ (text : Bytes). record rd { source = text })
          (read_file_content-publish host rd (pos (suc pid)) w s blanks pid_opens info_opens e
            trimmed k line),
      id,
      ap (λ n. if ltb_ℤ (pos 0) n then host.alive n else false) id
          ∙ ap (λ b. if b then host.alive (pos (suc pid)) else false) positive,
    )
