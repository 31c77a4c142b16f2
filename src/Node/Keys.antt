-- ===== src/Node/Keys.antt =====
-- The keys under which the node agent reports its disks (`sanitizeKey`).
use kube_nas.Base.{String, ◌<>◌, false, ◌≡◌, refl, sym, ap, ◌∙◌, str_eq, if◌then◌else◌}
use kube_nas.Base.Text.{append-differs, replace_char}
use text.Mathlib.TextLemmas.{nil-append, cons-append, append_assoc}
use kube_nas.AgentClient.{sanitize_device_path}
use kube_nas.Node.Agent.{sanitize_key}
use kube_nas.Node.Disk.{LsblkDevice, device_of}

sanitize_key-append : (a b : String) → sanitize_key (a <> b) ≡ sanitize_key a <> sanitize_key b
unfolding sanitize_key
sanitize_key-append String.[] b = ap sanitize_key (nil-append b) ∙ sym (nil-append (sanitize_key b))
sanitize_key-append (String.◌∷◌ c a) b =
    ap sanitize_key (cons-append c a b)
    ∙ ap (λ s. (if str_eq (String.◌∷◌ c "") "/" then "_" else String.◌∷◌ c "") <> s)
        (sanitize_key-append a b)
    ∙ sym (
        append_assoc (if str_eq (String.◌∷◌ c "") "/" then "_" else String.◌∷◌ c "")
          (sanitize_key a) (sanitize_key b))

-- The key of a device that was discovered is no name of a field of an operation.
pub device_key-differs :
    (d : LsblkDevice) → str_eq (sanitize_key (device_of d).device_path) "status.state" ≡ false
unfolding device_of sanitize_key
device_key-differs d =
    rw (sanitize_key-append "/dev/" d.name)
      (append-differs "_dev_" "status.state" (sanitize_key d.name) 95 115 _ _ refl refl refl)

-- The agent writes the status of a disk under the key at which the operator looks for it.
pub sanitize_key-sanitize_device_path :
    (path : String) → sanitize_key path ≡ sanitize_device_path path
unfolding sanitize_key sanitize_device_path replace_char
sanitize_key-sanitize_device_path String.[] = refl
sanitize_key-sanitize_device_path (String.◌∷◌ c s) =
    ap (λ r. (if str_eq (String.◌∷◌ c "") "/" then "_" else String.◌∷◌ c "") <> r)
      (sanitize_key-sanitize_device_path s)
