-- ===== src/Tests.antt =====
-- Concrete runs of the modelled code, and each theorem at one input.
mod Samples
mod TraceRuns
mod ModelRuns
mod ConfigRuns
mod PandasSample
mod DeviceRuns
mod PricingRuns
mod SystemRuns
mod RamulatorRuns
mod GroupRuns
mod SimulateRuns
mod MainRuns
