-- ===== src/Firmware/Node/Start.antt =====
-- What `main` does in front of its loop.
use sharak.Prelude.{
  take, ℕ, ◌≤◌, ◌<◌, ◌≡◌, refl, ap, ◌∙◌, arith, List, [], ◌++◌, some, bind_some, Ptr, length,
}
use sharak.Firmware.Bus.{Bus}
use sharak.Firmware.Sim.{Sim, nregs, i2c_sim_bind}
use sharak.Firmware.Sim.Access.{powered, i2c_sim_init_ok}
use sharak.Firmware.Sim.Burst.{IsMeasuring}
use sharak.Firmware.Adxl345.OnSim.{sim_bus, configured, adxl345_init_on_sim}
use sharak.Firmware.Device.{Device}
use sharak.Firmware.Uart.{uart_init}
use sharak.Firmware.Uart.Transmit.{IsTransmitter}
use sharak.Firmware.Uart.Text.{IsQuiet, uart_puts-sent, uart_init-Silent}
use sharak.Firmware.Node.{Node, next, online, main_start}

-- The banner, without its NUL.
abbrev pub banner : List ℕ
banner = take 20 online

-- Whatever the static variables and the stack held: with a line that drains and that the
-- configuration leaves quiet, the part in front of the loop ends with the first round. The line
-- has carried the banner, the bus is the simulated chip, which is well formed, measures and stands
-- at phase zero, and the sequence number is zero.
pub main_start-next :
    {D : Type 0} (dev : Device D) (bound fuel : ℕ) (line : IsTransmitter dev bound)
    (bus : Bus (Ptr Sim)) (s : Sim) (n : Node (Ptr Sim) D)
    → IsQuiet dev bound line
    → length s.regs ≡ nregs
    → line.busy n.device ≤ bound
    → bound < fuel
    → (d : D) × (main_start dev fuel (some bus) (some s) n
        ≡ some (
          next (record n { bus_state = some (configured powered); seq = 0; device = d }),
          some sim_bus,
        ))
      × IsMeasuring (configured powered)
      × (line.busy d ≤ bound)
      × (line.sent d ≡ line.sent n.device ++ banner)
unfolding main_start
main_start-next dev bound fuel line bus s n quiet size h enough =
    let (silent, less) = uart_init-Silent dev bound line quiet n.device in
    let (d, printed, h', sent) =
      uart_puts-sent dev bound line fuel banner [] (uart_init dev n.device) (ground arith)
        (omega arith) enough in
    let (powers, valid) = i2c_sim_init_ok s size in
    let (inits, measures) = adxl345_init_on_sim powered valid refl in
    let bind_lem : i2c_sim_bind (some bus) ≡ some sim_bus = unfold i2c_sim_bind in refl in
    (
      d,
      bind_some _ printed (bind_some _ powers (rw bind_lem (bind_some _ inits refl))),
      measures,
      h',
      sent ∙ ap (λ t. t ++ banner) silent,
    )
