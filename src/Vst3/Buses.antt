-- ===== src/Vst3/Buses.antt =====
-- The audio ports of the plugin: their set-up by `setupProcessing` and the buffers of a block, which
-- `process` passes on without conversion.
use wrac_plugin_template.Prelude.{
  ◌&&◌, ◌+◌, ℕ, Bool, true, false, ◌==◌, List, [], ◌∷◌, Option, none, some, if◌then◌else◌,
}

-- A pointer to the channels of a host's buffer is known by a number.
pub record AudioBuffer : Type 0 where
  pub channel_count : ℕ
  pub data32 : Option ℕ
  pub data64 : Option ℕ
  pub constant_mask : ℕ
  pub latency : ℕ

-- `Vst::AudioBusBuffers`, with the pointers of both representations.
pub record HostBuffers : Type 0 where
  pub num_channels : ℕ
  pub channel_buffers32 : ℕ
  pub channel_buffers64 : ℕ

-- A fresh buffer, and what `getInfo` sets in it; `none` is a bus without information.
abbrev pub no_buffer : AudioBuffer
no_buffer = record {
  channel_count = 0;
  data32 = none;
  data64 = none;
  constant_mask = 0;
  latency = 0;
}

unfoldable pub setup_ports : List (Option ℕ) → List AudioBuffer
setup_ports [] = []
setup_ports (none ∷ infos) = no_buffer ∷ setup_ports infos
setup_ports (some count ∷ infos) = record no_buffer { channel_count = count } ∷ setup_ports infos

-- Whether the host's bus has the channels of the port, and the port with the pointer that the
-- sample size of the block selects.
abbrev pub connect : (is_sample64 : Bool) → HostBuffers → AudioBuffer → Bool × AudioBuffer
connect is_sample64 host port =
    if host.num_channels == port.channel_count
    then (
      true,
      if is_sample64
          then record port { data32 = none; data64 = some host.channel_buffers64 }
          else record port { data64 = none; data32 = some host.channel_buffers32 },
    )
    else (false, port)

-- The loop over the ports, from the port `i` on. The host's array is read at each without a look at its
-- count: `hosts` is what the memory from the array on holds.
unfoldable pub connect_all :
    (is_sample64 : Bool) → (ℕ → HostBuffers) → (i : ℕ) → List AudioBuffer → Bool × List AudioBuffer
connect_all is_sample64 hosts i [] = (true, [])
connect_all is_sample64 hosts i (port ∷ ports) =
    let (fits, port') = connect is_sample64 (hosts i) port in
    let (rest_fits, ports') = connect_all is_sample64 hosts (i + 1) ports in
    (fits && rest_fits, port' ∷ ports')
