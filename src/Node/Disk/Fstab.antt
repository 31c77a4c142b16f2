-- ===== src/Node/Disk/Fstab.antt =====
-- The lines that EnsureFstabEntry of node-agent/pkg/disk/disk.go adds to /etc/fstab.
use kube_nas.Base.{
  String, ◌<>◌, Bool, true, false, [], ◌∷◌, ◌≡◌, refl, sym, ap, ◌∙◌, arith, inl, inr, Bool-cases,
  if◌then◌else◌,
}
use kube_nas.Base.Text.{is_empty}
use kube_nas.Base.Fields.{is_space, one, fields, fields_onto}
use text.Mathlib.TextLemmas.{nil-append, cons-append, append_assoc, append-nil}
use Prim.Native.Char.{Char, char, code}
use kube_nas.Node.Disk.{fstab_entry}

-- A text without spaces.
unfoldable pub has_no_space : String → Bool
has_no_space String.[] = true
has_no_space (String.◌∷◌ c s) = if is_space (code c) then false else has_no_space s

-- A field is read whole.
fields_onto-append :
    (f word rest : String)
    → has_no_space f ≡ true
    → fields_onto word (f <> rest) ≡ fields_onto (word <> f) rest
unfolding fields_onto has_no_space
fields_onto-append String.[] word rest h =
    ap (fields_onto word) (nil-append rest) ∙ ap (λ w. fields_onto w rest) (sym (append-nil word))
fields_onto-append (String.◌∷◌ c f) word rest h = elim (Bool-cases (is_space (code c))) [
  | inl e ↦ absurd (ground (arith, e))
  | inr e ↦
      ap (fields_onto word) (cons-append c f rest)
      ∙ (rw e (
          fields_onto-append f (word <> one c) rest (ground (arith, e))
          ∙ ap (λ w. fields_onto w rest)
              (append_assoc word (one c) f
                ∙ ap (λ w. word <> w) (cons-append c "" f ∙ ap (String.◌∷◌ c) (nil-append f)))))
]

abbrev tab : Char
tab = char 9 tt

-- What is read of a text at the separator that the entries of /etc/fstab have.
fields-tab :
    (f rest : String)
    → has_no_space f ≡ true
    → is_empty f ≡ false
    → fields (f <> ("\t" <> rest)) ≡ f ∷ fields rest
unfolding fields fields_onto is_space
fields-tab f rest h e =
    fields_onto-append f "" ("\t" <> rest) h
    ∙ ap (λ w. fields_onto w ("\t" <> rest)) (nil-append f)
    ∙ ap (fields_onto f) (cons-append tab "" rest ∙ ap (String.◌∷◌ tab) (nil-append rest))
    ∙ rw e refl

zeros : fields "0\t0\n" ≡ "0" ∷ "0" ∷ []
unfolding fields fields_onto is_space is_empty
zeros = refl

-- A text that is one field of a line.
abbrev pub IsField : String → Type 0
IsField f = (has_no_space f ≡ true) × (is_empty f ≡ false)

-- An entry of /etc/fstab whose four texts are fields, none of them empty or with a space in it, is read
-- as these four and the two numbers 0.
pub fields-fstab_entry :
    (device_path mount_point filesystem options : String)
    → IsField device_path
    → IsField mount_point
    → IsField filesystem
    → IsField options
    → fields (fstab_entry device_path mount_point filesystem options)
      ≡ device_path ∷ mount_point ∷ filesystem ∷ options ∷ "0" ∷ "0" ∷ []
unfolding fstab_entry
fields-fstab_entry d m fs o (d1, d2) (m1, m2) (f1, f2) (o1, o2) =
    fields-tab d (m <> ("\t" <> (fs <> ("\t" <> (o <> "\t0\t0\n"))))) d1 d2
    ∙ ap (λ l. d ∷ l)
        (fields-tab m (fs <> ("\t" <> (o <> "\t0\t0\n"))) m1 m2
          ∙ ap (λ l. m ∷ l)
              (fields-tab fs (o <> "\t0\t0\n") f1 f2
                ∙ ap (λ l. fs ∷ l) (fields-tab o "0\t0\n" o1 o2 ∙ ap (λ l. o ∷ l) zeros)))
