-- ===== src/Virsh/Metadata/Tests.antt =====
-- Two keys, and a version that is not supported.
use rally_ci.Prelude.{◌≡◌, refl, some}
use rally_ci.Python.{ok}
use rally_ci.Python.Text.{show}
use rally_ci.Python.Value.{str, field, end}
use rally_ci.Virsh.Metadata.{MetadataConfig, not_found, public_keys, readlines, meta_data}

public_keys-two :
    public_keys 0 (readlines "ssh-rsa a\nssh-rsa b\n")
    ≡ field "key-0" (str "ssh-rsa a\n") (field "key-1" (str "ssh-rsa b\n") end)
unfolding public_keys readlines show
public_keys-two = refl

abbrev config : MetadataConfig
config = record { authorized_keys = some "keys"; user_data = some "#cloud-config" }

meta_data-old : meta_data (λ filename. ok "") "u" config "2009-04-04" ≡ ok not_found
unfolding meta_data
meta_data-old = refl
