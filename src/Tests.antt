-- ===== src/Tests.antt =====
-- Runs of the models on concrete inputs, and the theorems at inputs that meet their conditions.
mod Autoscaler
mod AutoscalerTicks
mod Battlepass
mod Events
mod GiveItem
mod Ini
mod IniValues
mod Market
mod Schedule
mod Progression
mod Welcome
