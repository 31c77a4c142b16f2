-- ===== src/AgentClient/Snapraid/Lines.antt =====
-- The lines of the configuration that renderSnapraidConf of controllers/kubernetes_agent_client.go
-- makes.
use kube_nas.Base.{
  String, map, All, append_list_assoc, append_list-nil, ◌<>◌, List, [], ◌∷◌, ◌++◌, ◌≡◌, refl, ap,
  sym, ◌∙◌, true, ◌==◌, if◌then◌else◌, subst, Bool-cases, inl, inr,
}
use kube_nas.Base.Text.{decimal}
use kube_nas.Base.Fields.{split_lines}
use kube_nas.Base.Fields.Split.{lacks}
use kube_nas.Base.Fields.Lines.{
  IsLines, empty-IsLines, append-IsLines, split_lines-IsLines, lacks-append, lacks-decimal,
}
use kube_nas.Agent.{SnapraidConfig, SnapraidParityEntry, SnapraidDataEntry}
use kube_nas.AgentClient.Snapraid.{
  parity_line, data_line, content_line, exclude_line, append_lines, render_snapraid_conf,
}
use text.Mathlib.TextLemmas.{append_assoc, nil-append}

-- The lines without their newlines.
abbrev pub parity_text : SnapraidParityEntry → String
parity_text p =
    (if p.index == 1 then "parity " else decimal p.index <> "-parity ")
    <> (p.mount_point <> "/snapraid.parity")

abbrev pub data_text : SnapraidDataEntry → String
data_text d = "data " <> (d.label <> (" " <> d.mount_point))

abbrev pub content_text : String → String
content_text file = "content " <> file

abbrev pub exclude_text : String → String
exclude_text pattern = "exclude " <> pattern

abbrev pub IsOneLine : String → Type 0
IsOneLine s = lacks 10 s ≡ true

-- No path, label or pattern of the configuration has a newline.
pub record HasOneLiners (cfg : SnapraidConfig) : Type 0 where
  pub parity : All (λ p. IsOneLine p.mount_point) cfg.parity_entries
  pub data_entries : All (λ d. IsOneLine d.label × IsOneLine d.mount_point) cfg.data_entries
  pub content : All IsOneLine cfg.content_files
  pub exclude : All IsOneLine cfg.exclude_patterns

-- A loop that appends a line for each entry appends the lines.
append_lines-IsLines :
    {A : Type 0} (line text : A → String)
    → ((a : A) → line a ≡ text a <> "\n")
    → (as' : List A) (conf : String) (ls : List String) → All (λ a. IsOneLine (text a)) as'
    → IsLines conf ls
    → IsLines (append_lines line conf as') (ls ++ map text as')
unfolding append_lines
append_lines-IsLines line text same [] conf ls h read =
    subst (λ l. IsLines conf l) (sym (append_list-nil ls)) read
append_lines-IsLines line text same (a ∷ rest) conf ls (h, hs) read =
    subst (λ l. IsLines (append_lines line (conf <> line a) rest) l)
      (append_list_assoc ls (text a ∷ []) (map text rest))
      (append_lines-IsLines line text same rest (conf <> line a) (ls ++ (text a ∷ [])) hs (
        subst (λ l. IsLines (conf <> l) (ls ++ (text a ∷ []))) (sym (same a))
          (append-IsLines conf (text a) ls h read)))

-- An empty line.
blank-IsLines :
    (conf : String) (ls : List String) → IsLines conf ls → IsLines (conf <> "\n") (ls ++ ("" ∷ []))
unfolding lacks
blank-IsLines conf ls read =
    subst (λ l. IsLines (conf <> l) (ls ++ ("" ∷ []))) (nil-append "\n")
      (append-IsLines conf "" ls refl read)

parity_line-parity_text : (p : SnapraidParityEntry) → parity_line p ≡ parity_text p <> "\n"
unfolding parity_line
parity_line-parity_text p =
    let prefix = if p.index == 1 then "parity " else decimal p.index <> "-parity " in
    sym (
      append_assoc prefix (p.mount_point <> "/snapraid.parity") "\n"
      ∙ ap (λ r. prefix <> r) (append_assoc p.mount_point "/snapraid.parity" "\n"))

data_line-data_text : (d : SnapraidDataEntry) → data_line d ≡ data_text d <> "\n"
unfolding data_line
data_line-data_text d = sym (
    append_assoc "data " (d.label <> (" " <> d.mount_point)) "\n"
    ∙ ap (λ r. "data " <> r)
        (append_assoc d.label (" " <> d.mount_point) "\n"
          ∙ ap (λ r. d.label <> r) (append_assoc " " d.mount_point "\n")))

content_line-content_text : (file : String) → content_line file ≡ content_text file <> "\n"
unfolding content_line
content_line-content_text file = sym (append_assoc "content " file "\n")

exclude_line-exclude_text : (pattern : String) → exclude_line pattern ≡ exclude_text pattern <> "\n"
unfolding exclude_line
exclude_line-exclude_text pattern = sym (append_assoc "exclude " pattern "\n")

parity_text-IsOneLine :
    (p : SnapraidParityEntry) → IsOneLine p.mount_point → IsOneLine (parity_text p)
unfolding lacks
parity_text-IsOneLine p h =
    let file = p.mount_point <> "/snapraid.parity" in
    let one_line : IsOneLine file = lacks-append p.mount_point "/snapraid.parity" h refl in
    elim (Bool-cases (p.index == 1)) [
      | inl e ↦ rw e (lacks-append "parity " file refl one_line)
      | inr e ↦ rw e (
          lacks-append (decimal p.index <> "-parity ") file
            (lacks-append (decimal p.index) "-parity " (lacks-decimal p.index) refl) one_line)
    ]

data_text-IsOneLine :
    (d : SnapraidDataEntry) → IsOneLine d.label × IsOneLine d.mount_point → IsOneLine (data_text d)
unfolding lacks
data_text-IsOneLine d (h, h') =
    lacks-append "data " (d.label <> (" " <> d.mount_point)) refl
      (lacks-append d.label (" " <> d.mount_point) h (lacks-append " " d.mount_point refl h'))

-- What holds of every entry gives that its line is one.
all_lines :
    {A : Type 0} {P : A → Type 0} (text : A → String)
    → ((a : A) → P a → IsOneLine (text a))
    → (as' : List A) → All P as'
    → All (λ a. IsOneLine (text a)) as'
all_lines text each [] h = tt
all_lines text each (a ∷ rest) (h, hs) = (each a h, all_lines text each rest hs)

-- The lines of the configuration before the last, which is empty.
abbrev pub conf_lines : SnapraidConfig → List String
conf_lines cfg =
    (((((((("# Generated by KubeNAS Operator" ∷ "" ∷ []) ++ map parity_text cfg.parity_entries)
                ++ ("" ∷ []))
              ++ map content_text cfg.content_files)
            ++ ("" ∷ []))
          ++ map data_text cfg.data_entries)
        ++ ("" ∷ []))
      ++ map exclude_text cfg.exclude_patterns)

header-IsLines :
    IsLines "# Generated by KubeNAS Operator\n\n" ("# Generated by KubeNAS Operator" ∷ "" ∷ [])
unfolding lacks
header-IsLines =
    blank-IsLines ("# Generated by KubeNAS Operator" <> "\n")
      ("# Generated by KubeNAS Operator" ∷ [])
      (append-IsLines "" "# Generated by KubeNAS Operator" [] refl empty-IsLines)

-- Where no path, label or pattern has a newline, the configuration that is rendered, read line by
-- line, has the heading, a line for each parity entry, each content file, each data entry and each
-- pattern, in their order and with an empty line between the kinds, and nothing else.
pub split_lines-render_snapraid_conf :
    (cfg : SnapraidConfig)
    → HasOneLiners cfg
    → split_lines (render_snapraid_conf cfg) ≡ conf_lines cfg ++ ("" ∷ [])
unfolding render_snapraid_conf lacks
split_lines-render_snapraid_conf cfg h =
    split_lines-IsLines (render_snapraid_conf cfg) (conf_lines cfg) (
      append_lines-IsLines exclude_line exclude_text exclude_line-exclude_text cfg.exclude_patterns
        _ _
        (all_lines exclude_text (λ s e. lacks-append "exclude " s refl e) cfg.exclude_patterns
          h.exclude)
        (blank-IsLines _ _ (
          append_lines-IsLines data_line data_text data_line-data_text cfg.data_entries _ _
            (all_lines data_text data_text-IsOneLine cfg.data_entries h.data_entries)
            (blank-IsLines _ _ (
              append_lines-IsLines content_line content_text content_line-content_text
                cfg.content_files _ _
                (all_lines content_text (λ s e. lacks-append "content " s refl e) cfg.content_files
                  h.content)
                (blank-IsLines _ _ (
                  append_lines-IsLines parity_line parity_text parity_line-parity_text
                    cfg.parity_entries _ _
                    (all_lines parity_text parity_text-IsOneLine cfg.parity_entries h.parity)
                    header-IsLines)))))))
