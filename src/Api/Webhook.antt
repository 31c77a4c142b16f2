-- ===== src/Api/Webhook.antt =====
-- The admission checks of api/v1alpha1/*_webhook.go: what `ValidateCreate` and `ValidateUpdate` call.
-- `invalid` is the error of `apierrors.NewInvalid`, whose text that library makes.
use kube_nas.Base.{Option, none, some, starts_with, str_eq, is_nil, ◌||◌, not, if◌then◌else◌}
use kube_nas.Base.Text.{is_empty}
use kube_nas.Base.Outcome.{Error, errorf}
use kube_nas.Api.Array.{Array}
use kube_nas.Api.Disk.{Disk}
use kube_nas.Api.Share.{Share}

unfoldable pub validate_array : {F : Type 0} → Array F → Option Error
validate_array a =
    if is_nil a.spec.parity_disks || is_nil a.spec.data_disks
    then some (errorf "array must include data and parity disks")
    else none

unfoldable pub validate_disk : {F : Type 0} → Error → Disk F → Option Error
validate_disk invalid d =
    if is_empty d.spec.device_path || is_empty d.spec.mount_point || is_empty d.spec.node_name
    then some invalid
    else if str_eq d.spec.device_path d.spec.mount_point
    then some (errorf "devicePath and mountPoint must differ")
    else none

unfoldable pub validate_share : Share → Option Error
validate_share s =
    if not (starts_with s.spec.path "/") then some (errorf "share path must be absolute") else none
