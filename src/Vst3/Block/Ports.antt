-- ===== src/Vst3/Block/Ports.antt =====
-- What the audio ports of a block are does not depend on the blocks before it.
use wrac_plugin_template.Prelude.{
  ◌≡◌, ◌+◌, ℕ, Bool, ◌==◌, List, [], ◌∷◌, Option, none, some, if◌then◌else◌,
}
use wrac_plugin_template.Vst3.Buses.{AudioBuffer, HostBuffers, connect_all}

-- The input ports of a block; `none` is where they do not fit, so that the plugin does not process it.
abbrev pub processed :
    (is_sample64 : Bool) → (ℕ → HostBuffers) → List AudioBuffer → Option (List AudioBuffer)
processed is_sample64 hosts ports =
    let (fits, ports') = connect_all is_sample64 hosts 0 ports in if fits then some ports' else none

-- The channels of a bus, by its information at the set-up.
abbrev pub set_up_channels : Option ℕ → ℕ
set_up_channels none = 0
set_up_channels (some count) = count

-- A port of the host's buffers: it has the pointer of the block's representation and no other.
abbrev pub connected_port : (is_sample64 : Bool) → HostBuffers → AudioBuffer
connected_port is_sample64 host = record {
  channel_count = host.num_channels;
  data32 = if is_sample64 then none else some host.channel_buffers32;
  data64 = if is_sample64 then some host.channel_buffers64 else none;
  constant_mask = 0;
  latency = 0;
}

abbrev cons? : AudioBuffer → Option (List AudioBuffer) → Option (List AudioBuffer)
cons? port none = none
cons? port (some ports) = some (port ∷ ports)

-- A port for each bus, if each has the channels of the host's.
abbrev pub expected :
    (is_sample64 : Bool) → (ℕ → HostBuffers) → ℕ → List (Option ℕ) → Option (List AudioBuffer)
expected is_sample64 hosts i [] = some []
expected is_sample64 hosts i (info ∷ infos) =
    let rest = expected is_sample64 hosts (i + 1) infos in
    if (hosts i).num_channels == set_up_channels info
    then cons? (connected_port is_sample64 (hosts i)) rest
    else none

-- What blocks leave of the set-up of the ports.
abbrev AreSetUp : List (Option ℕ) → List AudioBuffer → Type 0
AreSetUp [] [] = Unit
AreSetUp [] (port ∷ ports) = ⊥
AreSetUp (info ∷ infos) [] = ⊥
AreSetUp (info ∷ infos) (port ∷ ports) =
    (port.channel_count ≡ set_up_channels info)
    × (port.constant_mask ≡ 0)
    × (port.latency ≡ 0)
    × AreSetUp infos ports
