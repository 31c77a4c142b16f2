-- ===== src/Storage/Options.antt =====
-- The texts of storage/mergerfs/options.go and storage/snapraid/config.go.
use kube_nas.Base.{ℕ, zero, suc, ◌+◌, String, ◌<>◌, List, [], ◌∷◌, ◌++◌, map, if◌then◌else◌}
use kube_nas.Base.Text.{decimal, join, is_empty}

unfoldable pub build_mount_options : String → String → String → String
build_mount_options category_create min_free_space extra =
    let create =
      if is_empty category_create then [] else ("category.create=" <> category_create) ∷ [] in
    let free = if is_empty min_free_space then [] else ("minfreespace=" <> min_free_space) ∷ [] in
    let more = if is_empty extra then [] else extra ∷ [] in
    join (((("defaults" ∷ "allow_other" ∷ []) ++ create) ++ free) ++ more) ","

-- A Go map has no order: `data` is its entries in the order in which the loop meets them.
pub record Config : Type 0 where
  pub parity : List String
  pub data_entries : List (String × String)
  pub content : List String
  pub exclude : List String

abbrev parity_line : ℕ → String → String
parity_line zero p = "parity " <> p
parity_line (suc i) p = decimal (suc i + 1) <> ("-parity " <> p)

abbrev parity_lines : ℕ → List String → List String
parity_lines i [] = []
parity_lines i (p ∷ ps) = parity_line i p ∷ parity_lines (suc i) ps

unfoldable pub render : Config → String
render cfg =
    join
      (((parity_lines 0 cfg.parity ++ map (λ d. "data " <> (d.0 <> (" " <> d.1))) cfg.data_entries)
          ++ map (λ c. "content " <> c) cfg.content)
        ++ map (λ e. "exclude " <> e) cfg.exclude)
      "\n"
    <> "\n"
