-- ===== src/Controllers/Array/Rendered.antt =====
-- The SnapRAID configuration of an Array on its way from the disks to the ConfigMap that the nodes
-- read: buildSnapraidConfig of controllers/array_controller.go, then ApplySnapraidConfig and
-- renderSnapraidConf of controllers/kubernetes_agent_client.go.
use kube_nas.Base.{
  ℕ, suc, ◌+◌, String, ◌<>◌, none, some, List, [], ◌∷◌, ◌++◌, map, All, ◌≡◌, refl, ap, ◌∙◌, ◌⊎◌,
  inl, inr, is_nil, if◌then◌else◌, Bool-cases, ◌==◌, ◌&&◌, not,
}
use kube_nas.Base.Text.{decimal}
use kube_nas.Base.Dict.{entry}
use kube_nas.Base.Fields.{split_lines}
use kube_nas.Base.Fields.Lines.{lacks-append, lacks-decimal}
use kube_nas.Base.Fields.Split.{lacks}
use kube_nas.Base.Outcome.{Error, err, is_not_found, Result-cases}
use kube_nas.Api.Meta.{Key}
use kube_nas.Api.Disk.{Disk}
use kube_nas.Api.Array.{Array}
use kube_nas.Cluster.{ConfigMap, Object, Kind, Call, Cluster, Trace}
use kube_nas.AgentClient.{labelled, apply_snapraid_config}
use kube_nas.AgentClient.Snapraid.{render_snapraid_conf}
use kube_nas.AgentClient.Snapraid.Lines.{
  IsOneLine, HasOneLiners, conf_lines, split_lines-render_snapraid_conf, data_text, parity_text,
  content_text, exclude_text,
}
use kube_nas.Controllers.Array.{parity_entries, data_entries, content_file, build_snapraid_config}

module _ {F : Type 0} where
  -- The content files and the patterns that the Array gives itself.
  abbrev pub given_content : Array F → List String
  given_content a = elim a.spec.snapraid_config [ none ↦ [] | some c ↦ c.content_files ]

  abbrev pub given_exclude : Array F → List String
  given_exclude a = elim a.spec.snapraid_config [ none ↦ [] | some c ↦ c.exclude_patterns ]

  abbrev pub AllMounts : List (Disk F) → Type 0
  AllMounts [] = Unit
  AllMounts (d ∷ disks) = IsOneLine d.spec.mount_point × AllMounts disks

  data_entries-IsOneLine :
      (disks : List (Disk F)) (i : ℕ)
      → AllMounts disks
      → All (λ d. IsOneLine d.label × IsOneLine d.mount_point) (data_entries i disks)
  unfolding data_entries lacks
  data_entries-IsOneLine [] i h = tt
  data_entries-IsOneLine (d ∷ disks) i (h, hs) = (
    (lacks-append "d" (decimal (i + 1)) refl (lacks-decimal (i + 1)), h),
    data_entries-IsOneLine disks (suc i) hs,
  )

  parity_entries-IsOneLine :
      (disks : List (Disk F)) (i : ℕ)
      → AllMounts disks
      → All (λ p. IsOneLine p.mount_point) (parity_entries i disks)
  unfolding parity_entries
  parity_entries-IsOneLine [] i h = tt
  parity_entries-IsOneLine (d ∷ disks) i (h, hs) = (h, parity_entries-IsOneLine disks (suc i) hs)

  content_file-IsOneLine :
      (disks : List (Disk F)) → AllMounts disks → All IsOneLine (map content_file disks)
  unfolding content_file lacks
  content_file-IsOneLine [] h = tt
  content_file-IsOneLine (d ∷ disks) (h, hs) =
      (lacks-append d.spec.mount_point "/.snapraid.content" h refl, content_file-IsOneLine disks hs)

  content_files-IsOneLine :
      (a : Array F) (disks parity : List (Disk F))
      → All IsOneLine (given_content a)
      → AllMounts disks
      → All IsOneLine (build_snapraid_config a disks parity).content_files
  unfolding build_snapraid_config
  content_files-IsOneLine a disks parity given mounts =
      elim (Bool-cases (is_nil (given_content a) && not (is_nil disks))) [
        | inl e ↦ rw e (content_file-IsOneLine disks mounts)
        | inr e ↦ rw e given
      ]

  build_snapraid_config-HasOneLiners :
      (a : Array F) (disks parity : List (Disk F))
      → All IsOneLine (given_content a)
      → All IsOneLine (given_exclude a)
      → AllMounts disks
      → AllMounts parity
      → HasOneLiners (build_snapraid_config a disks parity)
  unfolding build_snapraid_config
  build_snapraid_config-HasOneLiners a disks parity content exclude mounts mounts' = record {
    parity = parity_entries-IsOneLine parity 0 mounts';
    data_entries = data_entries-IsOneLine disks 0 mounts;
    content = content_files-IsOneLine a disks parity content mounts;
    exclude = exclude;
  }

  -- The lines for the data disks, of which the first is `data d1` with its mount point.
  abbrev pub data_lines : ℕ → List (Disk F) → List String
  data_lines i [] = []
  data_lines i (d ∷ disks) =
      ("data " <> (("d" <> decimal (i + 1)) <> (" " <> d.spec.mount_point)))
      ∷ data_lines (suc i) disks

  -- The lines for the parity disks: `parity`, `2-parity` and so on, with a file on the disk.
  abbrev pub parity_lines : ℕ → List (Disk F) → List String
  parity_lines i [] = []
  parity_lines i (d ∷ parity) =
      ((if i + 1 == 1 then "parity " else decimal (i + 1) <> "-parity ")
        <> (d.spec.mount_point <> "/snapraid.parity"))
      ∷ parity_lines (suc i) parity

  map-data_entries :
      (disks : List (Disk F)) (i : ℕ) → map data_text (data_entries i disks) ≡ data_lines i disks
  unfolding data_entries
  map-data_entries [] i = refl
  map-data_entries (d ∷ disks) i =
      ap
        (λ l.
          data_text (record {
            label = "d" <> decimal (i + 1);
            device_path = d.spec.device_path;
            mount_point = d.spec.mount_point;
          })
          ∷ l)
        (map-data_entries disks (suc i))

  map-parity_entries :
      (parity : List (Disk F)) (i : ℕ)
      → map parity_text (parity_entries i parity) ≡ parity_lines i parity
  unfolding parity_entries
  map-parity_entries [] i = refl
  map-parity_entries (d ∷ parity) i =
      ap
        (λ l.
          parity_text (record {
            index = i + 1;
            device_path = d.spec.device_path;
            mount_point = d.spec.mount_point;
          })
          ∷ l)
        (map-parity_entries parity (suc i))

  -- The lines that an Array with these disks stands for, before the last, which is empty.
  abbrev pub array_lines : Array F → List (Disk F) → List (Disk F) → List String
  array_lines a disks parity =
      (((((((("# Generated by KubeNAS Operator" ∷ "" ∷ []) ++ parity_lines 0 parity) ++ ("" ∷ []))
                ++ map content_text (build_snapraid_config a disks parity).content_files)
              ++ ("" ∷ []))
            ++ data_lines 0 disks)
          ++ ("" ∷ []))
        ++ map exclude_text (given_exclude a))

  conf_lines-array_lines :
      (a : Array F) (disks parity : List (Disk F))
      → conf_lines (build_snapraid_config a disks parity) ≡ array_lines a disks parity
  unfolding build_snapraid_config
  conf_lines-array_lines a disks parity =
      rw (map-data_entries disks 0, map-parity_entries parity 0) refl

  split_lines-build_snapraid_config :
      (a : Array F) (disks parity : List (Disk F))
      → All IsOneLine (given_content a)
      → All IsOneLine (given_exclude a)
      → AllMounts disks
      → AllMounts parity
      → split_lines (render_snapraid_conf (build_snapraid_config a disks parity))
        ≡ array_lines a disks parity ++ ("" ∷ [])
  split_lines-build_snapraid_config a disks parity content exclude mounts mounts' =
      split_lines-render_snapraid_conf (build_snapraid_config a disks parity)
        (build_snapraid_config-HasOneLiners a disks parity content exclude mounts mounts')
      ∙ ap (λ l. l ++ ("" ∷ [])) (conf_lines-array_lines a disks parity)

  -- A ConfigMap has the configuration of an Array.
  abbrev pub HasConfigOf : Array F → List (Disk F) → List (Disk F) → ConfigMap → Type 0
  HasConfigOf a disks parity cm =
      (text : String) × (entry cm.entries "snapraid.conf" ≡ some text)
      × (split_lines text ≡ array_lines a disks parity ++ ("" ∷ []))

  -- Where no mount point of the disks and no file or pattern of the Array has a newline, the operator
  -- asks for the ConfigMap of the node and then writes one with the configuration of the Array, anew
  -- or over the one that is there: read line by line, it has the lines of the disks in their order,
  -- with the numbers from 1, and those of the files and patterns, and nothing else. Else the read
  -- failed with an error that it returns, and nothing is written.
  pub apply_snapraid_config-HasConfigOf :
      (C : Cluster F) (namespace node : String) (a : Array F) (disks parity : List (Disk F))
      (t : Trace F)
      → All IsOneLine (given_content a)
      → All IsOneLine (given_exclude a)
      → AllMounts disks
      → AllMounts parity
      → let key : Key = record { name = "kubenas-snapraid-" <> node; namespace = namespace } in
        let applied =
          apply_snapraid_config C namespace node (build_snapraid_config a disks parity) t in
        ((cm : ConfigMap) × HasConfigOf a disks parity cm
          × ((applied.1 ≡ Call.create (Object.config_map cm) ∷ Call.read Kind.config_maps key ∷ t)
              ⊎ (applied.1
                  ≡ Call.update (Object.config_map cm) ∷ Call.read Kind.config_maps key ∷ t)))
        ⊎ ((x : Error) × (C.config_map t key ≡ err x)
            × (applied ≡ (some x, Call.read Kind.config_maps key ∷ t)))
  unfolding apply_snapraid_config entry
  apply_snapraid_config-HasConfigOf C namespace node a disks parity t content exclude mounts
        mounts' =
      let lines = split_lines-build_snapraid_config a disks parity content exclude mounts mounts' in
      let text = render_snapraid_conf (build_snapraid_config a disks parity) in
      elim (Result-cases
        (C.config_map t (record { name = "kubenas-snapraid-" <> node; namespace = namespace }))) [
          | inl (x, e) ↦ elim (Bool-cases (is_not_found x)) [
            | inl missing ↦ inl (
              record {
                meta =
                    labelled ("kubenas-snapraid-" <> node) namespace
                      (("kubenas.io/snapraid-config", "true") ∷ ("kubenas.io/node", node) ∷ []);
                entries = ("snapraid.conf", text) ∷ [];
              },
              (text, refl, lines),
              inl (rw (e, missing) refl),
            )
            | inr other ↦ inr (x, e, rw (e, other) refl)
          ]
          | inr (existing, e) ↦ inl (
            record existing { entries = ("snapraid.conf", text) ∷ [] },
            (text, refl, lines),
            inr (rw e refl),
          )
        ]
