-- ===== src/Agent/Procfs.antt =====
-- keck-agent/src/main.rs: what is read from the files of /proc. `none` is a file that cannot be read;
-- the files do not change while they are read.
use keck.Base.{
  ℕ, ◌*◌, ◌%◌, ◌^◌, String, string_eq, ◌==◌, Bool, true, ◌||◌, Option, none, some, List, [], ◌∷◌,
  if◌then◌else◌, ltb, leb, eqb, length, get_elem?, unwrap_or, find,
}
use keck.Base.Words.{add_u64}
use keck.Base.Text
use keck.Base.Text.{
  lines, words, after_last, behind, starts_with, all_chars, is_digit, is_alphanumeric, parse_u64,
  replace, take_while,
}

-- The names in /proc, and the files of each.
pub record ProcFs : Type 0 where
  pub entries : Option (List String)
  pub stat : String → Option String
  pub status : String → Option String
  pub smaps_rollup : String → Option String
  pub statm : String → Option String
  pub io : String → Option String
  pub cgroup : String → Option String

infixl 5 ◌>>=◌
abbrev pub ◌>>=◌ {ℓ κ} : {A : Type ℓ} {B : Type κ} → Option A → (A → Option B) → Option B
none >>= k = none
some a >>= k = k a

pub record ProcStat : Type 0 where
  pub cpu_ticks : ℕ
  pub minflt : ℕ
  pub majflt : ℕ

unfoldable pub read_proc_stat : Option String → Option ProcStat
read_proc_stat file = do
  content ← file
  after_comm ← after_last b')' content
  let fields = words after_comm
  enough ← if ltb (length fields) 13 then none else some fields
  minflt ← get_elem? enough 7 >>= parse_u64
  majflt ← get_elem? enough 9 >>= parse_u64
  utime ← get_elem? enough 11 >>= parse_u64
  stime ← get_elem? enough 12 >>= parse_u64
  some (record { cpu_ticks = add_u64 utime stime; minflt = minflt; majflt = majflt })

-- The second word of a line.
abbrev second_word : String → Option String
second_word line = get_elem? (words line) 1

-- The first line that starts with `Pss:` decides.
unfoldable pub read_pss_kb : Option String → Option ℕ
read_pss_kb file = do
  content ← file
  line ← find (λ l. starts_with l "Pss:") (lines content)
  word ← second_word line
  parse_u64 word

unfoldable pub read_rss_pages : Option String → Option ℕ
read_rss_pages file = do content ← file; field ← get_elem? (words content) 1; parse_u64 field

abbrev io_of_line : String → ℕ
io_of_line line =
    if starts_with line "read_bytes:" || starts_with line "write_bytes:"
    then unwrap_or (second_word line >>= parse_u64) 0
    else 0

unfoldable pub sum_io : List String → ℕ → ℕ
sum_io [] total = total
sum_io (l ∷ ls) total = sum_io ls (add_u64 total (io_of_line l))

unfoldable pub read_io_bytes : Option String → Option ℕ
read_io_bytes file = do content ← file; some (sum_io (lines content) 0)

-- The memory of a process in KB: PSS, or else four times the pages of RSS.
unfoldable pub read_memory : ProcFs → String → ℕ
read_memory fs pid =
    unwrap_or (read_pss_kb (fs.smaps_rollup pid))
      (unwrap_or (read_rss_pages (fs.statm pid)) 0 * 4 % 2 ^ 64)

-- A name in /proc that is a number.
abbrev pub is_pid : String → Bool
is_pid = all_chars is_digit

-- Only a thread group's leader is not skipped; without the line, or the file, nothing is.
unfoldable pub is_leader : Option String → String → Bool
is_leader none pid = true
is_leader (some status) pid = elim (find (λ l. starts_with l "Tgid:") (lines status)) [
  | none ↦ true
  | some line ↦ unwrap_or (second_word line) "" == pid
]

abbrev pub is_uid_char : ℕ → Bool
is_uid_char c = is_alphanumeric c || eqb c b'_' || eqb c b'-'

-- The uid in a line of a cgroup file.
unfoldable pub uid_of_line : String → Option String
uid_of_line line = elim (behind "-pod" (unwrap_or (after_last b':' line) line)) [
  | none ↦ none
  | some after ↦
      let uid = take_while is_uid_char after in
      if leb 8 (Text.length uid) then some (replace b'_' "-" uid) else none
]

unfoldable pub first_uid : List String → Option String
first_uid [] = none
first_uid (l ∷ ls) = elim (uid_of_line l) [ some uid ↦ some uid | none ↦ first_uid ls ]

unfoldable pub extract_pod_uid : String → Option String
extract_pod_uid content = first_uid (lines content)

-- The pod in which a process's cgroup file puts it.
unfoldable pub pod_of_file : Option String → Option String
pod_of_file file = file >>= extract_pod_uid
