-- ===== src/Standalone/Settings/Words.antt =====
-- The keys of a settings file and the words that are values in it, as standalone_settings.cpp of
-- clap_wrapper_builder/clap-wrapper/src/detail/standalone writes them.
use wrac_plugin_template.Prelude.{[], ◌∷◌}
use wrac_plugin_template.Prelude.Text.{Text}

-- "version"
abbrev pub k_version : Text
k_version = 0x76 ∷ 0x65 ∷ 0x72 ∷ 0x73 ∷ 0x69 ∷ 0x6F ∷ 0x6E ∷ []

-- "audioApiName"
abbrev pub k_audio_api_name : Text
k_audio_api_name =
    0x61 ∷ 0x75 ∷ 0x64 ∷ 0x69 ∷ 0x6F ∷ 0x41 ∷ 0x70 ∷ 0x69 ∷ 0x4E ∷ 0x61 ∷ 0x6D ∷ 0x65 ∷ []

-- "inputDeviceId"
abbrev pub k_input_device_id : Text
k_input_device_id =
    0x69 ∷ 0x6E ∷ 0x70 ∷ 0x75 ∷ 0x74 ∷ 0x44 ∷ 0x65 ∷ 0x76 ∷ 0x69 ∷ 0x63 ∷ 0x65 ∷ 0x49 ∷ 0x64 ∷ []

-- "outputDeviceId"
abbrev pub k_output_device_id : Text
k_output_device_id =
    0x6F ∷ 0x75 ∷ 0x74 ∷ 0x70 ∷ 0x75 ∷ 0x74 ∷ 0x44 ∷ 0x65 ∷ 0x76 ∷ 0x69 ∷ 0x63 ∷ 0x65 ∷ 0x49 ∷ 0x64
    ∷ []

-- "inputDeviceName"
abbrev pub k_input_device_name : Text
k_input_device_name =
    0x69 ∷ 0x6E ∷ 0x70 ∷ 0x75 ∷ 0x74 ∷ 0x44 ∷ 0x65 ∷ 0x76 ∷ 0x69 ∷ 0x63 ∷ 0x65 ∷ 0x4E ∷ 0x61 ∷ 0x6D
    ∷ 0x65 ∷ []

-- "outputDeviceName"
abbrev pub k_output_device_name : Text
k_output_device_name =
    0x6F ∷ 0x75 ∷ 0x74 ∷ 0x70 ∷ 0x75 ∷ 0x74 ∷ 0x44 ∷ 0x65 ∷ 0x76 ∷ 0x69 ∷ 0x63 ∷ 0x65 ∷ 0x4E ∷ 0x61
    ∷ 0x6D ∷ 0x65 ∷ []

-- "audioInputUsed"
abbrev pub k_audio_input_used : Text
k_audio_input_used =
    0x61 ∷ 0x75 ∷ 0x64 ∷ 0x69 ∷ 0x6F ∷ 0x49 ∷ 0x6E ∷ 0x70 ∷ 0x75 ∷ 0x74 ∷ 0x55 ∷ 0x73 ∷ 0x65 ∷ 0x64
    ∷ []

-- "audioOutputUsed"
abbrev pub k_audio_output_used : Text
k_audio_output_used =
    0x61 ∷ 0x75 ∷ 0x64 ∷ 0x69 ∷ 0x6F ∷ 0x4F ∷ 0x75 ∷ 0x74 ∷ 0x70 ∷ 0x75 ∷ 0x74 ∷ 0x55 ∷ 0x73 ∷ 0x65
    ∷ 0x64 ∷ []

-- "inputFirstChannel"
abbrev pub k_input_first_channel : Text
k_input_first_channel =
    0x69 ∷ 0x6E ∷ 0x70 ∷ 0x75 ∷ 0x74 ∷ 0x46 ∷ 0x69 ∷ 0x72 ∷ 0x73 ∷ 0x74 ∷ 0x43 ∷ 0x68 ∷ 0x61 ∷ 0x6E
    ∷ 0x6E ∷ 0x65 ∷ 0x6C ∷ []

-- "outputFirstChannel"
abbrev pub k_output_first_channel : Text
k_output_first_channel =
    0x6F ∷ 0x75 ∷ 0x74 ∷ 0x70 ∷ 0x75 ∷ 0x74 ∷ 0x46 ∷ 0x69 ∷ 0x72 ∷ 0x73 ∷ 0x74 ∷ 0x43 ∷ 0x68 ∷ 0x61
    ∷ 0x6E ∷ 0x6E ∷ 0x65 ∷ 0x6C ∷ []

-- "sampleRate"
abbrev pub k_sample_rate : Text
k_sample_rate = 0x73 ∷ 0x61 ∷ 0x6D ∷ 0x70 ∷ 0x6C ∷ 0x65 ∷ 0x52 ∷ 0x61 ∷ 0x74 ∷ 0x65 ∷ []

-- "bufferSize"
abbrev pub k_buffer_size : Text
k_buffer_size = 0x62 ∷ 0x75 ∷ 0x66 ∷ 0x66 ∷ 0x65 ∷ 0x72 ∷ 0x53 ∷ 0x69 ∷ 0x7A ∷ 0x65 ∷ []

-- "midiBindAllPorts"
abbrev pub k_midi_bind_all_ports : Text
k_midi_bind_all_ports =
    0x6D ∷ 0x69 ∷ 0x64 ∷ 0x69 ∷ 0x42 ∷ 0x69 ∷ 0x6E ∷ 0x64 ∷ 0x41 ∷ 0x6C ∷ 0x6C ∷ 0x50 ∷ 0x6F ∷ 0x72
    ∷ 0x74 ∷ 0x73 ∷ []

-- "midiPort"
abbrev pub k_midi_port : Text
k_midi_port = 0x6D ∷ 0x69 ∷ 0x64 ∷ 0x69 ∷ 0x50 ∷ 0x6F ∷ 0x72 ∷ 0x74 ∷ []

-- "midiPortId"
abbrev pub k_midi_port_id : Text
k_midi_port_id = 0x6D ∷ 0x69 ∷ 0x64 ∷ 0x69 ∷ 0x50 ∷ 0x6F ∷ 0x72 ∷ 0x74 ∷ 0x49 ∷ 0x64 ∷ []

-- "midiOutputPort"
abbrev pub k_midi_output_port : Text
k_midi_output_port =
    0x6D ∷ 0x69 ∷ 0x64 ∷ 0x69 ∷ 0x4F ∷ 0x75 ∷ 0x74 ∷ 0x70 ∷ 0x75 ∷ 0x74 ∷ 0x50 ∷ 0x6F ∷ 0x72 ∷ 0x74
    ∷ []

-- "midiOutputPortId"
abbrev pub k_midi_output_port_id : Text
k_midi_output_port_id =
    0x6D ∷ 0x69 ∷ 0x64 ∷ 0x69 ∷ 0x4F ∷ 0x75 ∷ 0x74 ∷ 0x70 ∷ 0x75 ∷ 0x74 ∷ 0x50 ∷ 0x6F ∷ 0x72 ∷ 0x74
    ∷ 0x49 ∷ 0x64 ∷ []

-- "midiVirtualInput"
abbrev pub k_midi_virtual_input : Text
k_midi_virtual_input =
    0x6D ∷ 0x69 ∷ 0x64 ∷ 0x69 ∷ 0x56 ∷ 0x69 ∷ 0x72 ∷ 0x74 ∷ 0x75 ∷ 0x61 ∷ 0x6C ∷ 0x49 ∷ 0x6E ∷ 0x70
    ∷ 0x75 ∷ 0x74 ∷ []

-- "midiVirtualOutput"
abbrev pub k_midi_virtual_output : Text
k_midi_virtual_output =
    0x6D ∷ 0x69 ∷ 0x64 ∷ 0x69 ∷ 0x56 ∷ 0x69 ∷ 0x72 ∷ 0x74 ∷ 0x75 ∷ 0x61 ∷ 0x6C ∷ 0x4F ∷ 0x75 ∷ 0x74
    ∷ 0x70 ∷ 0x75 ∷ 0x74 ∷ []

-- "screenAppearance"
abbrev pub k_screen_appearance : Text
k_screen_appearance =
    0x73 ∷ 0x63 ∷ 0x72 ∷ 0x65 ∷ 0x65 ∷ 0x6E ∷ 0x41 ∷ 0x70 ∷ 0x70 ∷ 0x65 ∷ 0x61 ∷ 0x72 ∷ 0x61 ∷ 0x6E
    ∷ 0x63 ∷ 0x65 ∷ []

-- "pluginStatePersistence"
abbrev pub k_plugin_state_persistence : Text
k_plugin_state_persistence =
    0x70 ∷ 0x6C ∷ 0x75 ∷ 0x67 ∷ 0x69 ∷ 0x6E ∷ 0x53 ∷ 0x74 ∷ 0x61 ∷ 0x74 ∷ 0x65 ∷ 0x50 ∷ 0x65 ∷ 0x72
    ∷ 0x73 ∷ 0x69 ∷ 0x73 ∷ 0x74 ∷ 0x65 ∷ 0x6E ∷ 0x63 ∷ 0x65 ∷ []

-- "windowX"
abbrev pub k_window_x : Text
k_window_x = 0x77 ∷ 0x69 ∷ 0x6E ∷ 0x64 ∷ 0x6F ∷ 0x77 ∷ 0x58 ∷ []

-- "windowY"
abbrev pub k_window_y : Text
k_window_y = 0x77 ∷ 0x69 ∷ 0x6E ∷ 0x64 ∷ 0x6F ∷ 0x77 ∷ 0x59 ∷ []

-- "windowWidth"
abbrev pub k_window_width : Text
k_window_width = 0x77 ∷ 0x69 ∷ 0x6E ∷ 0x64 ∷ 0x6F ∷ 0x77 ∷ 0x57 ∷ 0x69 ∷ 0x64 ∷ 0x74 ∷ 0x68 ∷ []

-- "windowHeight"
abbrev pub k_window_height : Text
k_window_height =
    0x77 ∷ 0x69 ∷ 0x6E ∷ 0x64 ∷ 0x6F ∷ 0x77 ∷ 0x48 ∷ 0x65 ∷ 0x69 ∷ 0x67 ∷ 0x68 ∷ 0x74 ∷ []

-- "true"
abbrev pub w_true : Text
w_true = 0x74 ∷ 0x72 ∷ 0x75 ∷ 0x65 ∷ []

-- "false"
abbrev pub w_false : Text
w_false = 0x66 ∷ 0x61 ∷ 0x6C ∷ 0x73 ∷ 0x65 ∷ []

-- "1"
abbrev pub w_one : Text
w_one = 0x31 ∷ []

-- "yes"
abbrev pub w_yes : Text
w_yes = 0x79 ∷ 0x65 ∷ 0x73 ∷ []

-- "light"
abbrev pub w_light : Text
w_light = 0x6C ∷ 0x69 ∷ 0x67 ∷ 0x68 ∷ 0x74 ∷ []

-- "dark"
abbrev pub w_dark : Text
w_dark = 0x64 ∷ 0x61 ∷ 0x72 ∷ 0x6B ∷ []

-- "auto"
abbrev pub w_auto : Text
w_auto = 0x61 ∷ 0x75 ∷ 0x74 ∷ 0x6F ∷ []

-- "none"
abbrev pub w_none : Text
w_none = 0x6E ∷ 0x6F ∷ 0x6E ∷ 0x65 ∷ []

-- "session"
abbrev pub w_session : Text
w_session = 0x73 ∷ 0x65 ∷ 0x73 ∷ 0x73 ∷ 0x69 ∷ 0x6F ∷ 0x6E ∷ []

-- The lines at the head of a file.
abbrev pub comment_1 : Text
comment_1 =
    0x23 ∷ 0x20 ∷ 0x63 ∷ 0x6C ∷ 0x61 ∷ 0x70 ∷ 0x2D ∷ 0x77 ∷ 0x72 ∷ 0x61 ∷ 0x70 ∷ 0x70 ∷ 0x65 ∷ 0x72
    ∷ 0x20 ∷ 0x73 ∷ 0x74 ∷ 0x61 ∷ 0x6E ∷ 0x64 ∷ 0x61 ∷ 0x6C ∷ 0x6F ∷ 0x6E ∷ 0x65 ∷ 0x20 ∷ 0x73
    ∷ 0x65 ∷ 0x74 ∷ 0x74 ∷ 0x69 ∷ 0x6E ∷ 0x67 ∷ 0x73 ∷ 0x2E ∷ []

abbrev pub comment_2 : Text
comment_2 =
    0x23 ∷ 0x20 ∷ 0x41 ∷ 0x75 ∷ 0x64 ∷ 0x69 ∷ 0x6F ∷ 0x20 ∷ 0x64 ∷ 0x65 ∷ 0x76 ∷ 0x69 ∷ 0x63 ∷ 0x65
    ∷ 0x73 ∷ 0x20 ∷ 0x61 ∷ 0x6E ∷ 0x64 ∷ 0x20 ∷ 0x4D ∷ 0x49 ∷ 0x44 ∷ 0x49 ∷ 0x20 ∷ 0x70 ∷ 0x6F
    ∷ 0x72 ∷ 0x74 ∷ 0x73 ∷ 0x20 ∷ 0x61 ∷ 0x72 ∷ 0x65 ∷ 0x20 ∷ 0x6D ∷ 0x61 ∷ 0x74 ∷ 0x63 ∷ 0x68
    ∷ 0x65 ∷ 0x64 ∷ 0x20 ∷ 0x62 ∷ 0x79 ∷ 0x20 ∷ 0x69 ∷ 0x64 ∷ 0x2C ∷ 0x20 ∷ 0x74 ∷ 0x68 ∷ 0x65
    ∷ 0x6E ∷ 0x20 ∷ 0x62 ∷ 0x79 ∷ 0x20 ∷ 0x6E ∷ 0x61 ∷ 0x6D ∷ 0x65 ∷ 0x2C ∷ 0x20 ∷ 0x77 ∷ 0x68
    ∷ 0x65 ∷ 0x6E ∷ 0x20 ∷ 0x74 ∷ 0x68 ∷ 0x65 ∷ 0x20 ∷ 0x73 ∷ 0x74 ∷ 0x61 ∷ 0x6E ∷ 0x64 ∷ 0x61
    ∷ 0x6C ∷ 0x6F ∷ 0x6E ∷ 0x65 ∷ []

abbrev pub comment_3 : Text
comment_3 =
    0x23 ∷ 0x20 ∷ 0x73 ∷ 0x74 ∷ 0x61 ∷ 0x72 ∷ 0x74 ∷ 0x73 ∷ 0x2E ∷ 0x20 ∷ 0x41 ∷ 0x6E ∷ 0x20 ∷ 0x75
    ∷ 0x6E ∷ 0x6D ∷ 0x61 ∷ 0x74 ∷ 0x63 ∷ 0x68 ∷ 0x65 ∷ 0x64 ∷ 0x20 ∷ 0x6F ∷ 0x6E ∷ 0x65 ∷ 0x20
    ∷ 0x66 ∷ 0x61 ∷ 0x6C ∷ 0x6C ∷ 0x73 ∷ 0x20 ∷ 0x62 ∷ 0x61 ∷ 0x63 ∷ 0x6B ∷ 0x20 ∷ 0x74 ∷ 0x6F
    ∷ 0x20 ∷ 0x74 ∷ 0x68 ∷ 0x65 ∷ 0x20 ∷ 0x73 ∷ 0x79 ∷ 0x73 ∷ 0x74 ∷ 0x65 ∷ 0x6D ∷ 0x20 ∷ 0x64
    ∷ 0x65 ∷ 0x66 ∷ 0x61 ∷ 0x75 ∷ 0x6C ∷ 0x74 ∷ 0x20 ∷ 0x66 ∷ 0x6F ∷ 0x72 ∷ 0x20 ∷ 0x74 ∷ 0x68
    ∷ 0x61 ∷ 0x74 ∷ 0x20 ∷ 0x72 ∷ 0x75 ∷ 0x6E ∷ 0x2C ∷ 0x20 ∷ 0x61 ∷ 0x6E ∷ 0x64 ∷ 0x20 ∷ 0x69
    ∷ 0x73 ∷ 0x20 ∷ 0x6B ∷ 0x65 ∷ 0x70 ∷ 0x74 ∷ 0x2E ∷ []
