-- ===== src/Installer/Checks.antt =====
-- src/utils.cpp: looking for partitions, and what is there of an installation.
use new_cli_installer.Base.{
  String, ◌==◌, ◌<>◌, Bool, true, false, not, ◌&&◌, ◌||◌, Option, none, some, List, [], ◌∷◌, ℕ,
  if◌then◌else◌, is_empty, length, ltb, eqb,
}
use new_cli_installer.Base.Decimal.{ℤ, pos, negsuc}
use new_cli_installer.Lines.{make_multiline}
use new_cli_installer.Boot.Initcpio.{file_exists}
use new_cli_installer.Sys.{ask, dialog, mount}
use new_cli_installer.Installer.Numbers.{to_int}
use new_cli_installer.Installer.State.{
  Run, text, number, texts, pure, ◌>>=◌, ◌>>◌, quit, lift, if_ndevenv, get_text, set,
}
use new_cli_installer.Installer.System.{output, interactive, succeeds, directory_exists}

-- A message that is shown until it is closed.
abbrev pub msgbox_widget : String → Run (Unit {0})
msgbox_widget message = do lift (ask (dialog message) (λ os log. tt)); pure tt

-- `a < b` of a number below a constant.
abbrev pub below : ℤ → ℕ → Bool
below (pos m) n = ltb m n
below (negsuc m) n = true

-- finding partitions

abbrev pub partitions_command : String → String
partitions_command include_part =
    "lsblk -lno NAME,SIZE,TYPE | grep '" <> include_part
    <> "' | sed 's/part$/\\/dev\\//g' | sed 's/lvm$\\|crypt$/\\/dev\\/mapper\\//g' | awk '{print $3$1 \" \" $2}' | awk '!/mapper/{a[++i]=$0;next}1;END{while(x<length(a))print a[++x]}' ; zfs list -Ht volume -o name,volsize 2>/dev/null | awk '{printf \"/dev/zvol/%s %s\\n\", $1, $2}'"

abbrev pub raid_command : String
raid_command = "lsblk -lno NAME,SIZE,TYPE | grep raid | awk '{print $1,$2}' | uniq"

-- The device of a line of the RAID partitions, and its size if there is one.
abbrev pub raid_device : List String → String → String
raid_device [] partitions_tmp = partitions_tmp
raid_device (name ∷ []) partitions_tmp = partitions_tmp <> "\n" <> "/dev/" <> name <> " "
raid_device (name ∷ size ∷ rest) partitions_tmp =
    partitions_tmp <> "\n" <> "/dev/" <> name <> " " <> size

unfoldable pub add_raid_parts : List String → String → String
add_raid_parts [] partitions_tmp = partitions_tmp
add_raid_parts (raid_part ∷ raid_parts) partitions_tmp =
    add_raid_parts raid_parts (raid_device (make_multiline raid_part false " ") partitions_tmp)

unfoldable pub partition_list : String → String → List String
partition_list partitions_tmp raid_partitions_raw =
    make_multiline
      (if is_empty raid_partitions_raw
        then partitions_tmp
        else add_raid_parts (make_multiline raid_partitions_raw true "\n") partitions_tmp)
      true "\n"

abbrev pub part_err_body : String
part_err_body =
    "\nBIOS systems require a minimum of one partition (ROOT).\n \nUEFI systems require a minimum of two partitions (ROOT and UEFI).\n"

abbrev pub lvm_part_err_body : String
lvm_part_err_body =
    "\nThere are no viable partitions available to use Logical Volume Manager.\nA minimum of one is required.\n\nIf LVM is already in use, deactivating it will allow the partition(s)\nused for its Physical Volume(s) to be used again.\n"

abbrev pub luks_part_err_body : String
luks_part_err_body =
    "\nA minimum of two partitions are required for encryption:\n\n1. Root (/) - standard or lvm partition types.\n\n2. Boot (/boot or /boot/efi) - standard partition types only\n(except lvm where using BIOS Grub).\n"

-- The message where there are too few partitions for what is going to be done.
unfoldable pub too_few : String → String → ℕ → Option String
too_few include_part system_info number_partitions =
    if include_part == "part\\|lvm\\|crypt"
      && ((system_info == "UEFI" && ltb number_partitions 2)
          || (system_info == "BIOS" && eqb number_partitions 0))
    then some part_err_body
    else if include_part == "part\\|crypt" && eqb number_partitions 0
    then some lvm_part_err_body
    else if include_part == "part\\|lvm" && ltb number_partitions 2
    then some luks_part_err_body
    else none

module _ (create_partitions : Run (Unit {0})) where
  -- `create_partitions` is the menu of that name, which is opened behind a message.
  unfoldable pub find_partitions : Run (Unit {0})
  find_partitions = do
    set "PARTITIONS" (text "")
    set "NUMBER_PARTITIONS" (number (pos 0))
    include_part ← get_text "INCLUDE_PART"
    partitions_tmp ← output (partitions_command include_part)
    raid_partitions_raw ← output raid_command
    let found = partition_list partitions_tmp raid_partitions_raw
    set "PARTITIONS" (texts found)
    set "NUMBER_PARTITIONS" (number (pos (length found)))
    system_info ← get_text "SYSTEM"
    elim (too_few include_part system_info (length found)) [
      | none ↦ pure tt
      | some body ↦ msgbox_widget body >> create_partitions
    ]

unfoldable pub lvm_detect : Option (Run (Unit {0})) → Run (Unit {0})
lvm_detect func_callback = do
  lvm_pv ← output "pvs -o pv_name --noheading 2>/dev/null"
  lvm_vg ← output "vgs -o vg_name --noheading 2>/dev/null"
  lvm_lv ← output "lvs -o vg_name,lv_name --noheading --separator - 2>/dev/null"
  if is_empty lvm_lv || (is_empty lvm_vg || is_empty lvm_pv) then pure tt else do
    elim func_callback [ none ↦ pure tt | some callback ↦ callback ]
    if_ndevenv
        (do
          succeeds "modprobe -v dm-mod &>>/tmp/cachyos-install.log"
          succeeds "vgscan -v 1>/dev/null 2>>/tmp/cachyos-install.log"
          succeeds "vgchange -ay -v 1>/dev/null 2>>/tmp/cachyos-install.log"
          pure tt)
        (pure tt)

unfoldable pub lvm_del_all : Run (Unit {0})
lvm_del_all =
    if_ndevenv
      (do
        interactive "lvremove -ff $(lvs --noheadings -o lv_path 2>/dev/null) 2>/dev/null"
        interactive "vgremove -ff $(vgs --noheadings -o vg_name 2>/dev/null) 2>/dev/null"
        interactive "pvremove -ff $(pvs --noheadings -o pv_name 2>/dev/null) 2>/dev/null")
      (pure tt)

unfoldable pub list_mounted : Run String
list_mounted = do
  output "lsblk -l | awk '$7 ~ /mnt/ {print $1}' > /tmp/.mounted"
  output "echo /dev/* /dev/mapper/* | xargs -n1 2>/dev/null | grep -f /tmp/.mounted"

unfoldable pub list_containing_crypt : Run String
list_containing_crypt = output "blkid | awk '/TYPE=\"crypto_LUKS\"/{print $1}' | sed 's/.$//'"

unfoldable pub list_non_crypt : Run String
list_non_crypt = output "blkid | awk '!/TYPE=\"crypto_LUKS\"/{print $1}' | sed 's/.$//'"

-- what is there

unfoldable pub check_mount : Run Bool
check_mount =
    if_ndevenv
      (do
        mountpoint_info ← get_text "MOUNTPOINT"
        found ← output ("findmnt -nl " <> mountpoint_info)
        pure (not (is_empty found)))
      (pure true)

unfoldable pub check_base : Run Bool
check_base =
    if_ndevenv
      (do
        mounted ← check_mount
        if not mounted then pure false else do
          pacman ← lift (file_exists "/mnt/usr/bin/pacman")
          if pacman
              then pure true
              else (msgbox_widget "\nThe CachyOS base must be installed first.\n" >> pure false))
      (pure true)

-- `mount` of efivarfs ends the program if it fails.
unfoldable pub mount_efivarfs : Run (Unit {0})
mount_efivarfs = do
  mount_out ← output "mount | grep /sys/firmware/efi/efivars"
  if not (is_empty mount_out) then pure tt else do
    let request = mount "efivarfs" "/sys/firmware/efi/efivars"
    mounted ← lift (ask request (λ os log. os.succeeds log request))
    if mounted then pure tt else quit

abbrev pub efi_path : String
efi_path = "/sys/firmware/efi/"

-- `fs::exists(efi_path) && fs::is_directory(efi_path)`
unfoldable pub efi_there : Run Bool
efi_there = do
  there ← lift (file_exists efi_path)
  if there then directory_exists efi_path else pure false

unfoldable pub id_system : Run (Unit {0})
id_system = do
  sys_vendor ← output "cat /sys/class/dmi/id/sys_vendor"
  (if sys_vendor == "Apple Inc." || sys_vendor == "Apple Computer, Inc."
      then output "modprobe -r -q efivars || true"
      else output "modprobe -q efivarfs")
  efi ← efi_there
  (if efi then (mount_efivarfs >> set "SYSTEM" (text "UEFI")) else pure tt)
  init_sys ← output "cat /proc/1/comm"
  h_init ← get_text "H_INIT"
  (if init_sys == "systemd" then set "H_INIT" (text "systemd") else pure tt)
  if not (init_sys == "systemd" || h_init == "systemd") then pure tt else do
    active ← output "systemctl is-active NetworkManager"
    if active == "active" then set "NW_CMD" (text "nmtui") else pure tt

-- A line for the checklist where the test holds.
abbrev pub line_if : Bool → String → String
line_if true line = line
line_if false line = ""

-- The bootloader is looked for on BIOS systems only.
unfoldable pub lacks_bootloader : String → String → Run Bool
lacks_bootloader system_info mountpoint =
    if system_info == "BIOS"
    then (do
      there ← succeeds ("arch-chroot " <> mountpoint <> " pacman -Qq grub &> /dev/null")
      pure (not there))
    else pure false

unfoldable pub final_check : Run (Unit {0})
final_check = do
  set "CHECKLIST" (text "")
  base ← lift (file_exists "/mnt/.base_installed")
  if not base then set "CHECKLIST" (text "- Base is not installed\n") else do
    system_info ← get_text "SYSTEM"
    mountpoint ← get_text "MOUNTPOINT"
    no_bootloader ← lacks_bootloader system_info mountpoint
    fstab ← succeeds ("grep -qv '^#' " <> mountpoint <> "/etc/fstab 2>/dev/null")
    locales ← output ("arch-chroot " <> mountpoint <> " locale -a | wc -l")
    no_password ←
        succeeds
          ("arch-chroot " <> mountpoint <> " passwd --status root | cut -d' ' -f2 | grep -q 'NP'")
    home ← lift (file_exists "/mnt/home")
    set "CHECKLIST" (
        text (
          line_if no_bootloader "- Bootloader is not installed\n"
          <> line_if (not fstab) "- Fstab has not been generated\n"
          <> line_if (below (to_int locales) 3) "- Locales have not been generated\n"
          <> line_if no_password "- Root password is not set\n"
          <> line_if (not home) "- No user accounts have been generated\n"))
