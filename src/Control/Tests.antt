-- ===== src/Control/Tests.antt =====
-- The theorems about controlSocket.cpp at concrete inputs.
use wireless_android_auto_do.Prelude.{◌++◌}
use wireless_android_auto_do.Control.Tokens.{tokens, value_of, get_cmdline_token_value-tokens}
use wireless_android_auto_do.Prelude.{◌≡◌, refl, arith, true, false, [], ◌∷◌, some}
use wireless_android_auto_do.Text.{Bytes, codes, has_byte, before, equal, starts_with}
use wireless_android_auto_do.Stream.{Input, chunk}
use wireless_android_auto_do.Control.{
  BluetoothDeviceInfo, System, Handler, handle_command, list_response, slot_of,
  get_cmdline_token_value, token_value, word,
}
use wireless_android_auto_do.Control.Json.{IsLine, handle_command-IsLine}
use wireless_android_auto_do.Control.ReadBack.{read_answer, read_answer-list_response}
use wireless_android_auto_do.Control.Serve.{trim_return, serve_client, accept_failed, client}
use wireless_android_auto_do.Control.Serve.Lines.{serve_client-command}
use wireless_android_auto_do.Control.Socket.{
  Setup, nobody, failed, visit, run_socket, answers_to, run_socket-Visits,
}

abbrev phone : BluetoothDeviceInfo
phone = record {
  object_path = codes "/org/bluez/hci0/dev_11";
  address = codes "11:22";
  name = codes "Ann's \"phone\"\n";
  paired = true;
  trusted = false;
  connected = true;
}

abbrev tablet : BluetoothDeviceInfo
tablet = record phone { name = []; paired = false }

abbrev board : System
board = record {
  uptime_sec = codes "4711";
  cmdline = codes "quiet root=/dev/mmcblk0p3 rw\n";
  kernel_release = codes "6.1";
  build = record { version = codes "1.2"; git_sha = codes "abc"; build_time_utc = codes "now" };
}

-- A handler whose state is the last selector, and which finds a phone only by its address.
abbrev fake : Handler Bytes
fake = record {
  list_devices = λ s. (phone ∷ tablet ∷ [], s);
  disconnect_all = λ s. [];
  switch_to_device = λ sel s. (equal sel (codes "11:22"), sel);
}

abbrev sends : Input
sends = chunk (codes "SWI") ∷ chunk (codes "TCH 11:22\nLI") ∷ chunk (codes "ST") ∷ []

slot_b : slot_of (get_cmdline_token_value board.cmdline (codes "root")) ≡ codes "B"
unfolding slot_of get_cmdline_token_value token_value equal before starts_with word
slot_b = refl

read_answer-list_response_example :
    read_answer 2 (list_response board (phone ∷ tablet ∷ []))
    ≡ some (
      record {
        uptime_sec = codes "4711";
        root_dev = codes "/dev/mmcblk0p3";
        slot = codes "B";
        kernel_release = codes "6.1";
        build = board.build;
        devices = phone ∷ tablet ∷ [];
      },
      [],
    )
unfolding slot_of get_cmdline_token_value token_value equal has_byte before starts_with word
read_answer-list_response_example = read_answer-list_response board (phone ∷ tablet ∷ []) refl

handle_command-IsLine_example : IsLine (handle_command fake board (codes "LIST") []).0
unfolding has_byte
handle_command-IsLine_example = handle_command-IsLine fake board (codes "LIST") [] refl

serve_client-command_example :
    serve_client fake board sends [] [] ≡ some (handle_command fake board (codes "SWITCH 11:22") [])
unfolding has_byte trim_return
serve_client-command_example =
    serve_client-command fake board (codes "SWITCH 11:22") (codes "LIST") sends [] refl refl refl
      (omega arith)

abbrev listening : Setup
listening = record { socket_ok = true; bind_ok = true; listen_ok = true }

run_socket-Visits_example :
    run_socket fake board listening (client sends [] ∷ accept_failed ∷ []) 3 []
    ≡ some (record {
      answers = (answers_to fake board (codes "SWITCH 11:22" ∷ []) []).0;
      open_count = 4;
      state = (answers_to fake board (codes "SWITCH 11:22" ∷ []) []).1;
    })
unfolding has_byte trim_return
run_socket-Visits_example =
    run_socket-Visits fake board listening 3 [] refl refl refl
      (visit (codes "LIST") refl refl refl (omega arith) (failed nobody))

get_cmdline_token_value-tokens_example :
    get_cmdline_token_value board.cmdline (codes "root")
    ≡ value_of (codes "root" ++ b'=' ∷ []) (tokens (before b'\n' board.cmdline))
get_cmdline_token_value-tokens_example = get_cmdline_token_value-tokens board.cmdline (codes "root")
