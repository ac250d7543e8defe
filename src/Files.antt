-- ===== src/Files.antt =====
-- source/zt_port.cpp: the files of the ZeroTier node: StatePath, cbStateGet and cbStatePut, and the two
-- helpers on whole files. The file system of the console is outside. A file's content is the list of
-- its bytes, a path the list of its characters. The counter of failed writes is left out.
pub mod Paths
pub mod Store
use sys_grid.Base.{
  ℕ, zero, suc, ◌+◌, ◌-◌, ◌*◌, ◌/◌, ◌%◌, ◌^◌, ◌≡◌, ◌≢◌, Bool, true, false, not, ◌&&◌, ◌||◌, List,
  [], ◌∷◌, ◌++◌, Option, none, some, ◌==◌, ltb, leb, if◌then◌else◌, length,
}
use sys_grid.Net.{Bytes}
use sys_grid.Config.{Text}
use sys_grid.Config.Nwid.{print_hex}

-- `ZT_StateObjectType`, as far as StatePath tells its values apart.
pub data StateObject : Type 0 where
  identity_public identity_secret planet network_config peer other_object : StateObject

-- "sdmc:/atmosphere/contents/4200000000005A54/zt/", "identity.public", "identity.secret",
-- "planet", "networks.d/", ".conf", "peers.d/" and ".peer".
abbrev pub state_root : Text
state_root =
    115 ∷ 100 ∷ 109 ∷ 99 ∷ 58 ∷ 47 ∷ 97 ∷ 116 ∷ 109 ∷ 111 ∷ 115 ∷ 112 ∷ 104 ∷ 101 ∷ 114 ∷ 101 ∷ 47
    ∷ 99 ∷ 111 ∷ 110 ∷ 116 ∷ 101 ∷ 110 ∷ 116 ∷ 115 ∷ 47 ∷ 52 ∷ 50 ∷ 48 ∷ 48 ∷ 48 ∷ 48 ∷ 48 ∷ 48 ∷ 48
    ∷ 48 ∷ 48 ∷ 48 ∷ 53 ∷ 65 ∷ 53 ∷ 52 ∷ 47 ∷ 122 ∷ 116 ∷ 47 ∷ []

abbrev pub public_name : Text
public_name =
    105 ∷ 100 ∷ 101 ∷ 110 ∷ 116 ∷ 105 ∷ 116 ∷ 121 ∷ 46 ∷ 112 ∷ 117 ∷ 98 ∷ 108 ∷ 105 ∷ 99 ∷ []

abbrev pub secret_name : Text
secret_name =
    105 ∷ 100 ∷ 101 ∷ 110 ∷ 116 ∷ 105 ∷ 116 ∷ 121 ∷ 46 ∷ 115 ∷ 101 ∷ 99 ∷ 114 ∷ 101 ∷ 116 ∷ []

abbrev pub planet_name : Text
planet_name = 112 ∷ 108 ∷ 97 ∷ 110 ∷ 101 ∷ 116 ∷ []

abbrev pub networks_dir : Text
networks_dir = 110 ∷ 101 ∷ 116 ∷ 119 ∷ 111 ∷ 114 ∷ 107 ∷ 115 ∷ 46 ∷ 100 ∷ 47 ∷ []

abbrev pub conf_ending : Text
conf_ending = 46 ∷ 99 ∷ 111 ∷ 110 ∷ 102 ∷ []

abbrev pub peers_dir : Text
peers_dir = 112 ∷ 101 ∷ 101 ∷ 114 ∷ 115 ∷ 46 ∷ 100 ∷ 47 ∷ []

abbrev pub peer_ending : Text
peer_ending = 46 ∷ 112 ∷ 101 ∷ 101 ∷ 114 ∷ []

-- The digits that `%.<precision>llx` prints: at least `precision`, and as many as the value needs.
unfoldable pub hex_width : ℕ → ℕ → ℕ → ℕ
hex_width zero precision v = precision
hex_width (suc left) precision v =
    let more = hex_width left (suc precision) v in
    if ltb v (16 ^ precision) then precision else more

abbrev pub print_llx : ℕ → ℕ → Text
print_llx precision v = print_hex (hex_width 16 precision v) v

-- `StatePath`, for `id[0]`.
unfoldable pub state_path : StateObject → ℕ → Option Text
state_path identity_public id = some (state_root ++ public_name)
state_path identity_secret id = some (state_root ++ secret_name)
state_path planet id = some (state_root ++ planet_name)
state_path network_config id =
    some (state_root ++ (networks_dir ++ (print_llx 16 id ++ conf_ending)))
state_path peer id = some (state_root ++ (peers_dir ++ (print_llx 10 id ++ peer_ending)))
state_path other_object id = none

-- The calls of `ams::fs`: DeleteFile, CreateFile with a size, OpenFile and WriteFile at offset 0, and
-- OpenFile, GetFileSize and ReadFile of the whole file.
pub record FileSystem : Type 1 where
  pub State : Type 0
  pub delete : State → Text → State
  pub create : State → Text → ℕ → State × Bool
  pub write : State → Text → Bytes → State × Bool
  pub read : State → Text → Option Bytes

module _ (fs : FileSystem) where
  -- `WriteWholeFile`, `WriteBinaryFile` and the second half of cbStatePut.
  unfoldable pub write_whole_file : fs.State → Text → Bytes → fs.State × Bool
  write_whole_file s path content =
      let (made, created) = fs.create (fs.delete s path) path (length content) in
      if not created then (made, false) else fs.write made path content

  -- `ReadWholeFile`: the text needs room for its terminator.
  unfoldable pub read_whole_file : fs.State → Text → ℕ → Option Bytes
  read_whole_file s path buf_len = elim (fs.read s path) [
    | none ↦ none
    | some content ↦ if leb buf_len (length content) then none else some content
  ]

  -- `none` stands for a return value of -1.
  unfoldable pub cb_state_get : fs.State → StateObject → ℕ → ℕ → Option Bytes
  cb_state_get s type id maxlen = elim (state_path type id) [
    | none ↦ none
    | some path ↦ elim (fs.read s path) [
      | none ↦ none
      | some content ↦ if ltb maxlen (length content) then none else some content
    ]
  ]

  -- `none` stands for a negative length, which deletes the object.
  unfoldable pub cb_state_put : fs.State → StateObject → ℕ → Option Bytes → fs.State
  cb_state_put s type id content = elim (state_path type id) [
    | none ↦ s
    | some path ↦ elim content [
      | none ↦ fs.delete s path
      | some bytes ↦ (write_whole_file s path bytes).0
    ]
  ]
