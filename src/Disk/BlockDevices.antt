-- ===== src/Disk/BlockDevices.antt =====
-- gucc/src/block_devices.cpp: the block devices that lsblk lists. The JSON library is a parameter.
use new_cli_installer.Base.{
  String, ◌==◌, ℕ, Bool, false, Option, none, some, List, [], map, value_or, is_empty, find_if,
  if◌then◌else◌,
}
use new_cli_installer.Sys.{M, pure, ◌>>=◌}
use new_cli_installer.Sys.Io.{exec}

pub record BlockDevice : Type 0 where
  pub name : String
  pub type : String
  pub fstype : String
  pub uuid : String
  pub model : Option String
  pub mountpoint : Option String
  pub pkname : Option String
  pub label : Option String
  pub partuuid : Option String
  pub size : Option ℕ

-- What RapidJSON answers: whether a text parses, and the member of a name that is a text, a number or
-- an array. A negative number is read as the `uint64_t` that it is stored in.
pub record Json : Type 1 where
  pub Value : Type 0
  pub parse : String → Option Value
  pub text_member : Value → String → Option String
  pub number_member : Value → String → Option ℕ
  pub array_member : Value → String → Option (List Value)

module _ (json : Json) where
  unfoldable pub get_blockdevice_from_json : json.Value → BlockDevice
  get_blockdevice_from_json doc = record {
    name = value_or (json.text_member doc "name") "";
    type = value_or (json.text_member doc "type") "";
    fstype = value_or (json.text_member doc "fstype") "";
    uuid = value_or (json.text_member doc "uuid") "";
    model = json.text_member doc "model";
    mountpoint = json.text_member doc "mountpoint";
    pkname = json.text_member doc "pkname";
    label = json.text_member doc "label";
    partuuid = json.text_member doc "partuuid";
    size = json.number_member doc "size";
  }

  unfoldable pub parse_lsblk_json : String → List BlockDevice
  parse_lsblk_json json_output = elim (json.parse json_output) [
    | none ↦ []
    | some document ↦
        map get_blockdevice_from_json (value_or (json.array_member document "blockdevices") [])
  ]

  unfoldable pub list_block_devices : M (Option (List BlockDevice))
  list_block_devices = do
    lsblk_output ←
        exec
          "lsblk -f -o NAME,TYPE,FSTYPE,UUID,PARTUUID,PKNAME,LABEL,SIZE,MOUNTPOINT,MODEL -b -p -a -J -Q \"type=='part' || type=='crypt' && fstype\""
          false
    pure (if is_empty lsblk_output then none else some (parse_lsblk_json lsblk_output))

unfoldable pub find_device_by_name : List BlockDevice → String → Option BlockDevice
find_device_by_name devices device_name = find_if (λ dev. dev.name == device_name) devices

abbrev pub has_pkname : Option String → String → Bool
has_pkname none pkname = false
has_pkname (some name) pkname = name == pkname

unfoldable pub find_device_by_pkname : List BlockDevice → String → Option BlockDevice
find_device_by_pkname devices pkname = find_if (λ dev. has_pkname dev.pkname pkname) devices
