-- ===== src/Node/Parity.antt =====
-- node-agent/pkg/parity/parity.go, the commands of SnapRAID.
pub mod Counts
pub mod Scrub
use kube_nas.Base.{
  ℕ, ◌+◌, ◌*◌, ◌-◌, ◌^◌, String, ◌<>◌, Bool, true, false, Option, none, some, List, [], ◌∷◌, ◌++◌,
  map, not, ◌&&◌, ◌||◌, if◌then◌else◌, ltb, leb, ◌==◌,
}
use kube_nas.Base.Int.{ℤ, pos, negsuc, ltb_ℤ, add64}
use kube_nas.Base.Text.{decimal_ℤ, is_empty, codes, lower, contains}
use kube_nas.Base.Fields.{is_space, split_lines}
use kube_nas.Base.Outcome.{Error, errorf, wrap}
use kube_nas.Cluster.{Cluster, Action, pure, ◌>>=◌, clock}
use kube_nas.Node.Host.{Host, run, look_path, open_truncate, write}
use Prim.Native.Char.{code}

pub record OperationResult : Type 0 where
  pub operation : String
  pub start_time : ℕ
  pub end_time : ℕ
  pub exit_code : ℤ
  pub stdout : String
  pub stderr : String
  pub success : Bool
  pub error_count : ℤ

-- What follows the codes of a prefix.
unfoldable pub after : List ℕ → List ℕ → Option (List ℕ)
after [] s = some s
after (p ∷ ps) [] = none
after (p ∷ ps) (c ∷ s) = let rest = after ps s in if p == c then rest else none

unfoldable pub skip_spaces : List ℕ → List ℕ
skip_spaces [] = []
skip_spaces (c ∷ s) = let rest = skip_spaces s in if is_space c then rest else c ∷ s

-- A space of a format: one or more spaces.
unfoldable pub after_spaces : List ℕ → Option (List ℕ)
after_spaces [] = none
after_spaces (c ∷ s) = if is_space c then some (skip_spaces s) else none

-- The value of the digits at the front, if there are any, and what follows them.
unfoldable pub digits_then : Option ℕ → List ℕ → Option (ℕ × List ℕ)
digits_then value [] = elim value [ none ↦ none | some n ↦ some (n, []) ]
digits_then value (c ∷ s) =
    let n : ℕ = elim value [ none ↦ 0 | some n ↦ n ] in
    let rest = digits_then (some (n * 10 + (c - 48))) s in
    if leb 48 c && leb c 57 then rest else elim value [ none ↦ none | some m ↦ some (m, c ∷ s) ]

-- `%d` into an int64: a number out of range is an error.
unfoldable pub signed : Bool → Option (ℕ × List ℕ) → Option (ℤ × List ℕ)
signed negative none = none
signed false (some (n, s)) = if ltb n (2 ^ 63) then some (pos n, s) else none
signed true (some (n, s)) =
    if leb n 0 then some (pos 0, s) else if leb n (2 ^ 63) then some (negsuc (n - 1), s) else none

unfoldable pub number_then : List ℕ → Option (ℤ × List ℕ)
number_then [] = none
number_then (c ∷ s) =
    if c == 45
    then signed true (digits_then none s)
    else if c == 43
    then signed false (digits_then none s)
    else signed false (digits_then none (c ∷ s))

-- `fmt.Sscanf(line, "found %d error", &n)` on a line in which "error" occurs.
unfoldable pub scan_found : List ℕ → Option ℤ
scan_found line = elim (after (codes "found") line) [
  | none ↦ none
  | some s ↦ elim (after_spaces s) [
    | none ↦ none
    | some s' ↦ elim (number_then s') [
      | none ↦ none
      | some (n, rest) ↦ elim (after_spaces rest) [
        | none ↦ none
        | some rest' ↦ elim (after (codes "error") rest') [ none ↦ none | some end ↦ some n ]
      ]
    ]
  ]
]

-- What a line adds to the count. The line is in lower case.
unfoldable pub found_in : List ℕ → ℤ
found_in line =
    if contains line (codes "error") && contains line (codes "found")
    then elim (scan_found line) [ none ↦ pos 0 | some n ↦ n ]
    else pos 0

unfoldable pub count_lines : ℤ → List String → ℤ
count_lines count [] = count
count_lines count (line ∷ lines) =
    count_lines (add64 count (found_in (map lower (codes line)))) lines

unfoldable pub parse_error_count : String → ℤ
parse_error_count output = count_lines (pos 0) (split_lines output)

-- The percentage that a scrub is run with.
unfoldable pub scrub_percent : ℤ → ℤ
scrub_percent percent =
    if not (ltb_ℤ (pos 0) percent) || ltb_ℤ (pos 100) percent then pos 100 else percent

abbrev pub code_of : Option ℤ → ℤ
code_of none = pos 0
code_of (some code) = code

module _ {F : Type 0} (C : Cluster F) (H : Host F) where
  -- The result is there beside an error, too.
  unfoldable pub run_snapraid :
      String → String → List String → Action F (OperationResult × Option Error)
  run_snapraid conf_path command extra = do
    let path = if is_empty conf_path then "/etc/snapraid/snapraid.conf" else conf_path
    start ← clock C
    e ← run H "snapraid" (("-c" ∷ path ∷ command ∷ []) ++ extra)
    end ← clock C
    let result : OperationResult = record {
      operation = command;
      start_time = start;
      end_time = end;
      exit_code = code_of e.exit_code;
      stdout = e.stdout;
      stderr = e.stderr;
      success = elim e.error [ none ↦ true | some x ↦ false ];
      error_count = parse_error_count e.stdout;
    }
    pure (
      result,
      elim e.error [
        | none ↦ none
        | some x ↦ some (
            errorf (
              "snapraid "
              <> (command
                  <> (" exited " <> (decimal_ℤ (code_of e.exit_code) <> (": " <> e.stderr))))))
      ],
    )

  unfoldable pub sync : String → Action F (OperationResult × Option Error)
  sync conf_path = run_snapraid conf_path "sync" []

  unfoldable pub check : String → Action F (OperationResult × Option Error)
  check conf_path = run_snapraid conf_path "check" []

  unfoldable pub scrub : String → ℤ → Action F (OperationResult × Option Error)
  scrub conf_path percent =
      run_snapraid conf_path "scrub" ("-p" ∷ decimal_ℤ (scrub_percent percent) ∷ [])

  unfoldable pub fix : String → String → Action F (OperationResult × Option Error)
  fix conf_path disk_label = run_snapraid conf_path "fix" ("-d" ∷ disk_label ∷ [])

  unfoldable pub status : String → Action F (OperationResult × Option Error)
  status conf_path = run_snapraid conf_path "status" []

  unfoldable pub diff : String → Action F (OperationResult × Option Error)
  diff conf_path = run_snapraid conf_path "diff" []

unfoldable pub is_snapraid_available : {F : Type 0} → Host F → Action F Bool
is_snapraid_available H = look_path H "snapraid"

-- `confPath[:strings.LastIndex(confPath, "/")]`, of which a path without a slash makes a panic.
unfoldable pub parent_of : String → Option String
parent_of String.[] = none
parent_of (String.◌∷◌ c s) = elim (parent_of s) [
  | some parent ↦ some (String.◌∷◌ c parent)
  | none ↦ if code c == 47 then some "" else none
]

-- `none` is a panic.
unfoldable pub write_config :
    {F : Type 0} → Host F → String → String → Action F (Option (Option Error))
write_config H conf_path content = elim (parent_of conf_path) [
  | none ↦ pure none
  | some parent ↦
      let dir = if is_empty parent then "/etc/snapraid" else parent in
      run H "mkdir" ("-p" ∷ dir ∷ []) >>= λ e. elim e.error [
        | some x ↦ pure (some (some (wrap ("creating config dir " <> dir) x)))
        | none ↦ open_truncate H conf_path >>= λ r. elim r [
          | some x ↦ pure (some (some x))
          | none ↦ write H conf_path content >>= λ w. pure (some w)
        ]
      ]
]
