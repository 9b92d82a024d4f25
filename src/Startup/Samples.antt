-- ===== src/Startup/Samples.antt =====
-- A start that ends for a window that answers, and one that meets a stale instance.
use ligament_apps.Common.{
  ◌+◌, ◌≡◌, refl, true, false, ◌&&◌, none, some, [], ◌∷◌, leb, if◌then◌else◌,
}
use ligament_apps.Common.Text.{codes, eq_text, eq_icase}
use ligament_apps.Startup.{read_options, MutexResult, Windows, main}
use ligament_apps.Startup.Kills.{kills, Terminates, main-Terminates}

abbrev existing : MutexResult
existing = record { made = true; error = 183 }

abbrev answering : Windows
answering = record {
  com_ready = true;
  first_mutex = existing;
  titled = none;
  old_titled = none;
  windows =
      record { handle = 1; class_name = codes "Other"; title = codes "Ligament" }
      ∷ record {
        handle = 2;
        class_name = codes "FLUTTER_RUNNER_WIN32_WINDOW";
        title = codes "My Ligament";
      }
      ∷ [];
  responds = true;
  current_pid = 9;
  snapshot = some (
      record { exe_file = codes "Ligament_authenticator.exe"; id = 7; opens = true }
      ∷ record { exe_file = codes "ligament_authenticator.exe"; id = 9; opens = true }
      ∷ record { exe_file = codes "other.exe"; id = 8; opens = true }
      ∷ []);
  second_mutex = record { made = true; error = 0 };
  window_made = true;
  loop_failed = false;
  fold = λ c. if leb b'A' c && leb c b'Z' then c + 32 else c;
}

hung : Windows
hung = record answering { responds = false }

-- The start ends with success, and terminates nothing.
answering_ends : ((main answering []).1 ≡ true) × (kills (main answering []).0 ≡ [])
unfolding main eq_text
answering_ends = (refl, refl)

-- The other process of the application is terminated, whatever it was started for.
hung_terminates : kills (main hung []).0 ≡ 7 ∷ []
unfolding main eq_text eq_icase hung
hung_terminates = refl

main-Terminates_example : Terminates hung (read_options []) (kills (main hung []).0)
main-Terminates_example = main-Terminates hung []
